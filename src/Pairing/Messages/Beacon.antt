-- ===== src/Pairing/Messages/Beacon.antt =====
-- struct PairingBeacon: the coordinator announces its channel.
use ungula_lib_net.Base.{ℕ, Bool, ◌&&◌, List, [], ◌∷◌, ◌++◌, ◌==◌, get_or, take, memcmp_eq}
use ungula_lib_net.Pairing.Types.{pairing_magic, pairing_role_coordinator}

pub record PairingBeacon : Type 0 where
  pub magic : List ℕ
  pub role : ℕ
  pub channel : ℕ
  pub reserved : List ℕ

unfoldable pub init : ℕ → PairingBeacon
init ch = record {
  magic = pairing_magic;
  role = pairing_role_coordinator;
  channel = ch;
  reserved = 0 ∷ 0 ∷ [];
}

unfoldable pub is_valid : PairingBeacon → Bool
is_valid b = memcmp_eq 4 b.magic pairing_magic && b.role == pairing_role_coordinator

unfoldable pub parse : List ℕ → PairingBeacon
parse bytes = record {
  magic = take 4 bytes;
  role = get_or bytes 4 0;
  channel = get_or bytes 5 0;
  reserved = get_or bytes 6 0 ∷ get_or bytes 7 0 ∷ [];
}

unfoldable pub encode : PairingBeacon → List ℕ
encode b = b.magic ++ b.role ∷ b.channel ∷ b.reserved
