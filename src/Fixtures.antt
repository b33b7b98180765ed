-- ===== src/Fixtures.antt =====
-- A concrete radio and a concrete preferences store, on which the theorems about any transport and
-- any store are tried out.
use Prim.Native.String.{String}
use text.Mathlib.Text.{◌==◌ as str_eq}
use ungula_lib_net.Base.{
  ℕ, ◌≤◌, ◌≡◌, refl, Bool, true, ◌&&◌, List, [], ◌∷◌, ◌++◌, Option, none, some, arith, leb, length,
  if◌then◌else◌,
}
use ungula_lib_net.Comm.Types.{MacAddress, ok, invalid_argument, transport_max_payload}
use ungula_lib_net.Comm.Transport.{Transport, IsTransport}
use ungula_lib_net.Preferences.{Preferences}
use ungula_lib_net.Preferences.Laws.{Value, byte, blob, u8_or, is_some, IsPreferences}

-- A radio that knows its channel and what it has sent.
pub record Radio : Type 0 where
  pub channel : ℕ
  pub sent : List (MacAddress × List ℕ)

abbrev fits : List ℕ → Bool
fits b = leb (length b) transport_max_payload

abbrev in_band : ℕ → Bool
in_band c = leb 1 c && leb c 13

instance abbrev pub radio : Transport Radio
radio = record {
  send = λ m b t.
      if fits b then (record t { sent = t.sent ++ (m, b) ∷ [] }, ok) else (t, invalid_argument);
  set_channel = λ c t. if in_band c then (record t { channel = c }, ok) else (t, invalid_argument);
  get_channel = λ t. t.channel;
  add_peer = λ m c t. (t, ok);
  remove_peer = λ m t. (t, ok);
  has_peer = λ m t. true;
}

pub sends :
    (m : MacAddress) (b : List ℕ) (t : Radio)
    → length b ≤ transport_max_payload
    → (radio.send m b t).0.sent ≡ t.sent ++ (m, b) ∷ []
sends m b t small = ground arith

pub keeps_channel :
    (m : MacAddress) (b : List ℕ) (t : Radio) → (radio.send m b t).0.channel ≡ t.channel
keeps_channel m b t = ground arith

pub sends_nothing : (c : ℕ) (t : Radio) → (radio.set_channel c t).0.sent ≡ t.sent
sends_nothing c t = ground arith

pub tunes : (c : ℕ) (t : Radio) → 1 ≤ c → c ≤ 13 → (radio.set_channel c t).0.channel ≡ c
tunes c t low high = ground arith

unfoldable pub radio-IsTransport : IsTransport radio
radio-IsTransport = record {
  sent = λ t. t.sent;
  sent-send = sends;
  sent-set_channel = sends_nothing;
  sent-add_peer = λ m c t. refl;
  sent-remove_peer = λ m t. refl;
  channel-set_channel = tunes;
  channel-send = keeps_channel;
  channel-add_peer = λ m c t. refl;
  channel-remove_peer = λ m t. refl;
}

-- A store that keeps its writes, the last one first: the namespace, the key, and what it holds then.
pub record Flash : Type 0 where
  pub opened : String
  pub writes : List (String × String × Option Value)

abbrev pub look_up : String → String → List (String × String × Option Value) → Option Value
look_up n k [] = none
look_up n k ((m, j, v) ∷ ws) = if str_eq n m && str_eq k j then v else look_up n k ws

abbrev read : String → Flash → Option Value
read k p = look_up p.opened k p.writes

abbrev write : String → Option Value → Flash → Flash
write k v p = record p { writes = (p.opened, k, v) ∷ p.writes }

abbrev bytes_or_none : ℕ → Option Value → List ℕ
bytes_or_none len (some (blob b)) = if leb (length b) len then b else []
bytes_or_none len (some (byte n)) = []
bytes_or_none len none = []

instance abbrev pub flash : Preferences Flash
flash = record {
  begin = λ n p. (record p { opened = n }, true);
  close = λ p. p;
  get_u8 = λ k d p. u8_or d (read k p);
  put_u8 = λ k v p. write k (some (byte v)) p;
  get_bytes = λ k len p. bytes_or_none len (read k p);
  put_bytes = λ k b p. (write k (some (blob b)) p, true);
  has_key = λ k p. is_some (read k p);
  remove = λ k p. write k none p;
}

pub reads :
    (k : String) (len : ℕ) (b : List ℕ) (p : Flash)
    → look_up p.opened k p.writes ≡ some (blob b)
    → length b ≤ len
    → flash.get_bytes k len p ≡ b
reads k len b p h small = ground arith

pub reads_nothing :
    (k : String) (len : ℕ) (p : Flash)
    → look_up p.opened k p.writes ≡ none
    → flash.get_bytes k len p ≡ []
reads_nothing k len p h = ground arith

unfoldable pub flash-IsPreferences : IsPreferences flash
flash-IsPreferences = record {
  opened = λ p. p.opened;
  value = λ n k p. look_up n k p.writes;
  begins = λ n p. refl;
  opened-begin = λ n p. refl;
  value-begin = λ n k m p. refl;
  value-close = λ n k p. refl;
  opened-put_u8 = λ j v p. refl;
  value-put_u8 = λ n k j v p. refl;
  opened-put_bytes = λ j b p. refl;
  value-put_bytes = λ n k j b p. refl;
  opened-remove = λ j p. refl;
  value-remove = λ n k j p. refl;
  get_u8_lem = λ k d p. refl;
  get_bytes-some = reads;
  get_bytes-none = reads_nothing;
  has_key_lem = λ k p. refl;
}

abbrev pub mac : ℕ → MacAddress
mac n = record { b0 = 2; b1 = 0; b2 = 0; b3 = 0; b4 = 0; b5 = n }

abbrev pub quiet : Radio
quiet = record { channel = 6; sent = [] }

abbrev pub blank : Flash
blank = record { opened = ""; writes = [] }
