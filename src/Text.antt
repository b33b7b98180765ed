-- ===== src/Text.antt =====
-- The texts that src/wifi prints by snprintf: a MAC address as "%02X:%02X:…", as in ap_get_mac, and
-- an IPv4 address as "%d.%d.%d.%d" (IPSTR), as in sta_get_ip. A text is the list of its bytes.
pub mod Laws
use ungula_lib_net.Base.{
  ℕ, ◌+◌, ◌-◌, ◌/◌, ◌%◌, ◌==◌, ◌&&◌, Bool, Option, none, some, List, [], ◌∷◌, ◌++◌, ltb,
  if◌then◌else◌, take,
}
use ungula_lib_net.Comm.Types.{MacAddress}

-- `snprintf` into a buffer of `size` bytes keeps room for the final zero.
abbrev pub printed : ℕ → List ℕ → List ℕ
printed size text = take (size - 1) text

abbrev pub hex_digit : ℕ → ℕ
hex_digit n = if ltb n 10 then 48 + n else 55 + n

-- "%02X" at a byte.
unfoldable pub hex_byte : ℕ → List ℕ
hex_byte b = hex_digit (b / 16) ∷ hex_digit (b % 16) ∷ []

unfoldable pub mac_text : MacAddress → List ℕ
unfolding hex_byte
mac_text m =
    hex_byte m.b0
    ++ 58 ∷ hex_byte m.b1
    ++ 58 ∷ hex_byte m.b2
    ++ 58 ∷ hex_byte m.b3
    ++ 58 ∷ hex_byte m.b4
    ++ 58 ∷ hex_byte m.b5

-- An IPv4 address, its bytes in the order in which they are printed.
pub record Ip : Type 0 where
  pub a : ℕ
  pub b : ℕ
  pub c : ℕ
  pub d : ℕ

-- "%d" at a byte.
unfoldable pub decimal_byte : ℕ → List ℕ
decimal_byte n =
    if ltb n 10
    then (48 + n) ∷ []
    else if ltb n 100
    then (48 + n / 10) ∷ (48 + n % 10) ∷ []
    else (48 + n / 100) ∷ (48 + n / 10 % 10) ∷ (48 + n % 10) ∷ []

unfoldable pub ip_text : Ip → List ℕ
ip_text i =
    decimal_byte i.a
    ++ (46 ∷ decimal_byte i.b ++ (46 ∷ decimal_byte i.c ++ (46 ∷ decimal_byte i.d)))

-- "0.0.0.0"
abbrev pub no_ip : List ℕ
no_ip = ip_text (record { a = 0; b = 0; c = 0; d = 0 })

abbrev pub is_any : Ip → Bool
is_any i = i.a == 0 && i.b == 0 && i.c == 0 && i.d == 0

-- An address that cannot be read leaves the text as it is.
abbrev pub ip_or : List ℕ → Option Ip → List ℕ
ip_or old none = old
ip_or old (some i) = printed 16 (ip_text i)

abbrev pub mac_or : List ℕ → Option MacAddress → List ℕ
mac_or old none = old
mac_or old (some m) = printed 18 (mac_text m)
