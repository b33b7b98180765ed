-- ===== src/Pairing/Messages/Probe.antt =====
-- struct ReconnectProbe: a client looks for a coordinator that knows it.
use ungula_lib_net.Base.{ℕ, Bool, List, [], ◌∷◌, ◌++◌, get_or, take, memcmp_eq}

abbrev pub reconnect_magic : List ℕ
reconnect_magic = 0xac ∷ 0xdc ∷ 0x07 ∷ 0x77 ∷ []

pub record ReconnectProbe : Type 0 where
  pub magic : List ℕ
  pub device_id : ℕ
  pub reserved : List ℕ

unfoldable pub init : ℕ → ReconnectProbe
init dev_id = record { magic = reconnect_magic; device_id = dev_id; reserved = 0 ∷ 0 ∷ 0 ∷ [] }

unfoldable pub is_valid : ReconnectProbe → Bool
is_valid p = memcmp_eq 4 p.magic reconnect_magic

unfoldable pub parse : List ℕ → ReconnectProbe
parse bytes = record {
  magic = take 4 bytes;
  device_id = get_or bytes 4 0;
  reserved = get_or bytes 5 0 ∷ get_or bytes 6 0 ∷ get_or bytes 7 0 ∷ [];
}

unfoldable pub encode : ReconnectProbe → List ℕ
encode p = p.magic ++ p.device_id ∷ p.reserved
