-- ===== src/Text/Laws.antt =====
-- The printed addresses fit their buffers, and are read back.
use ungula_lib_net.Base.{
  ℕ, ◌+◌, ◌-◌, ◌*◌, ◌/◌, ◌%◌, ◌≤◌, ◌<◌, ◌≡◌, refl, ap, ◌∙◌, List, [], ◌∷◌, ◌++◌, Option, none, some,
  arith, ltb, ◌==◌, if◌then◌else◌, length, length-append, take_all,
}
use ungula_lib_net.Comm.Types.{MacAddress}
use ungula_lib_net.Text.{printed, hex_digit, hex_byte, mac_text, Ip, decimal_byte, ip_text}

-- A reader of such texts, written independently.
pub hex_value : ℕ → ℕ
hex_value c = if ltb c 58 then c - 48 else c - 55

pub read_mac : List ℕ → Option MacAddress
unfolding hex_value
read_mac (h0 ∷ l0 ∷ _ ∷ h1 ∷ l1 ∷ _ ∷ h2 ∷ l2 ∷ _ ∷ h3 ∷ l3 ∷ _ ∷ h4 ∷ l4 ∷ _ ∷ h5 ∷ l5 ∷ []) =
    some (record {
      b0 = hex_value h0 * 16 + hex_value l0;
      b1 = hex_value h1 * 16 + hex_value l1;
      b2 = hex_value h2 * 16 + hex_value l2;
      b3 = hex_value h3 * 16 + hex_value l3;
      b4 = hex_value h4 * 16 + hex_value l4;
      b5 = hex_value h5 * 16 + hex_value l5;
    })
read_mac _ = none

-- The numbers between the dots; the last one comes first.
pub read_numbers : ℕ → List ℕ → List ℕ → List ℕ
read_numbers acc seen [] = acc ∷ seen
read_numbers acc seen (c ∷ cs) =
    read_numbers (if c == 46 then 0 else acc * 10 + (c - 48)) (if c == 46 then acc ∷ seen else seen)
      cs

abbrev of_numbers : List ℕ → Option Ip
of_numbers (d ∷ c ∷ b ∷ a ∷ []) = some (record { a = a; b = b; c = c; d = d })
of_numbers _ = none

pub read_ip : List ℕ → Option Ip
unfolding read_numbers
read_ip text = of_numbers (read_numbers 0 [] text)

abbrev pub IsByteMac : MacAddress → Type 0
IsByteMac m =
    (m.b0 < 256) × (m.b1 < 256) × (m.b2 < 256) × (m.b3 < 256) × (m.b4 < 256) × (m.b5 < 256)

abbrev pub IsByteIp : Ip → Type 0
IsByteIp i = (i.a < 256) × (i.b < 256) × (i.c < 256) × (i.d < 256)

hex_lem :
    (b : ℕ) → b < 256 → hex_value (hex_digit (b / 16)) * 16 + hex_value (hex_digit (b % 16)) ≡ b
unfolding hex_value
hex_lem b h = ground arith

-- A number is read after any digits, up to a dot or the end.
number_lem :
    (n : ℕ) (seen rest : List ℕ)
    → n < 256
    → read_numbers 0 seen (decimal_byte n ++ 46 ∷ rest) ≡ read_numbers 0 (n ∷ seen) rest
unfolding read_numbers decimal_byte
number_lem n seen rest h = ground arith

last_lem : (n : ℕ) (seen : List ℕ) → n < 256 → read_numbers 0 seen (decimal_byte n) ≡ n ∷ seen
unfolding read_numbers decimal_byte
last_lem n seen h = ground arith

decimal-length : (n : ℕ) → length (decimal_byte n) ≤ 3
unfolding decimal_byte
decimal-length n = ground arith

-- A MAC address of six bytes is printed by 17 characters, which fit a buffer of 18, and from which
-- it is read back.
pub read-mac_text :
    (m : MacAddress)
    → IsByteMac m
    → (length (mac_text m) ≡ 17)
      × (printed 18 (mac_text m) ≡ mac_text m)
      × (read_mac (mac_text m) ≡ some m)
unfolding mac_text hex_byte read_mac
read-mac_text m v = (refl, refl, grind (arith, hex_lem))

ip-length : (i : Ip) → length (ip_text i) ≤ 15
unfolding ip_text
ip-length i =
    let cd = length-append (46 ∷ decimal_byte i.c) (46 ∷ decimal_byte i.d) in
    let bcd =
      length-append (46 ∷ decimal_byte i.b) ((46 ∷ decimal_byte i.c) ++ (46 ∷ decimal_byte i.d)) in
    omega (
      arith,
      cd,
      bcd,
      length-append (decimal_byte i.a)
          ((46 ∷ decimal_byte i.b) ++ ((46 ∷ decimal_byte i.c) ++ (46 ∷ decimal_byte i.d))),
      decimal-length i.a,
      decimal-length i.b,
      decimal-length i.c,
      decimal-length i.d,
    )

ip_numbers : (i : Ip) → IsByteIp i → read_numbers 0 [] (ip_text i) ≡ i.d ∷ i.c ∷ i.b ∷ i.a ∷ []
unfolding ip_text
ip_numbers i (va, vb, vc, vd) =
    number_lem i.a [] _ va
    ∙ number_lem i.b (i.a ∷ []) _ vb
    ∙ number_lem i.c (i.b ∷ i.a ∷ []) _ vc
    ∙ last_lem i.d (i.c ∷ i.b ∷ i.a ∷ []) vd

-- An IPv4 address is printed by at most 15 characters, which fit a buffer of 16, and from which it
-- is read back.
pub read-ip_text :
    (i : Ip)
    → IsByteIp i
    → (length (ip_text i) ≤ 15)
      × (printed 16 (ip_text i) ≡ ip_text i)
      × (read_ip (ip_text i) ≡ some i)
unfolding read_ip
read-ip_text i v =
    (ip-length i, take_all 15 (ip_text i) (ip-length i), ap of_numbers (ip_numbers i v))
