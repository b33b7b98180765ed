-- ===== src/Comm/Types.antt =====
-- src/comm/transport_types.h.
use ungula_lib_net.Base.{
  ℕ, ◌≡◌, refl, ◌↔◌, Bool, true, ◌&&◌, List, [], ◌∷◌, Option, none, some, arith, ◌==◌, get_or,
}

-- `uint8_t addr[6]`, a field for each byte.
pub record MacAddress : Type 0 where
  pub b0 : ℕ
  pub b1 : ℕ
  pub b2 : ℕ
  pub b3 : ℕ
  pub b4 : ℕ
  pub b5 : ℕ

abbrev pub addr_len : ℕ
addr_len = 6

abbrev pub addr : MacAddress → List ℕ
addr m = m.b0 ∷ m.b1 ∷ m.b2 ∷ m.b3 ∷ m.b4 ∷ m.b5 ∷ []

-- `memcmp(addr, other.addr, 6) == 0`.
infix 50 ◌==mac◌
unfoldable pub ◌==mac◌ : MacAddress → MacAddress → Bool
a ==mac b =
    a.b0 == b.b0 && a.b1 == b.b1 && a.b2 == b.b2 && a.b3 == b.b3 && a.b4 == b.b4 && a.b5 == b.b5

-- `clear`, and the default member initialiser.
abbrev pub cleared : MacAddress
cleared = record { b0 = 0; b1 = 0; b2 = 0; b3 = 0; b4 = 0; b5 = 0 }

abbrev pub broadcast : MacAddress
broadcast = record { b0 = 255; b1 = 255; b2 = 255; b3 = 255; b4 = 255; b5 = 255 }

unfoldable pub is_zero : MacAddress → Bool
unfolding ◌==mac◌
is_zero m = m ==mac cleared

unfoldable pub is_broadcast : MacAddress → Bool
unfolding ◌==mac◌
is_broadcast m = m ==mac broadcast

-- A copy of at most six bytes over an address, as `memcpy` and `IPreferences::getBytes` do it.
unfoldable pub write_bytes : List ℕ → MacAddress → MacAddress
write_bytes src m = record {
  b0 = get_or src 0 m.b0;
  b1 = get_or src 1 m.b1;
  b2 = get_or src 2 m.b2;
  b3 = get_or src 3 m.b3;
  b4 = get_or src 4 m.b4;
  b5 = get_or src 5 m.b5;
}

-- `none` is a null pointer.
unfoldable pub copy_from : Option (List ℕ) → MacAddress → MacAddress
unfolding write_bytes
copy_from none m = cleared
copy_from (some src) m = write_bytes src m

unfoldable pub from_bytes : Option (List ℕ) → MacAddress
unfolding write_bytes
from_bytes none = cleared
from_bytes (some src) = write_bytes src cleared

pub data TransportError : Type 0 where
  ok send_failed not_initialized peer_not_found : TransportError
  buffer_full invalid_argument timeout : TransportError

abbrev pub transport_max_payload : ℕ
transport_max_payload = 240

pub ==mac_refl : (a : MacAddress) → (a ==mac a) ≡ true
unfolding ◌==mac◌
==mac_refl a = ground arith

-- The comparison of addresses decides their equality.
pub ==mac_iff : (a b : MacAddress) → ((a ==mac b) ≡ true) ↔ (a ≡ b)
unfolding ◌==mac◌
==mac_iff a b = ground arith

pub write_bytes-addr : (a m : MacAddress) → write_bytes (addr a) m ≡ a
unfolding write_bytes
write_bytes-addr a m = refl
