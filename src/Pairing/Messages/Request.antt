-- ===== src/Pairing/Messages/Request.antt =====
-- struct PairingRequest: a client asks to be paired.
use ungula_lib_net.Base.{ℕ, Bool, ◌&&◌, List, [], ◌∷◌, ◌++◌, ◌==◌, get_or, take, memcmp_eq}
use ungula_lib_net.Pairing.Types.{pairing_magic, pairing_role_client}

pub record PairingRequest : Type 0 where
  pub magic : List ℕ
  pub role : ℕ
  pub device_id : ℕ
  pub reserved : List ℕ

unfoldable pub init : ℕ → PairingRequest
init dev_id = record {
  magic = pairing_magic;
  role = pairing_role_client;
  device_id = dev_id;
  reserved = 0 ∷ 0 ∷ [];
}

unfoldable pub is_valid : PairingRequest → Bool
is_valid b = memcmp_eq 4 b.magic pairing_magic && b.role == pairing_role_client

unfoldable pub parse : List ℕ → PairingRequest
parse bytes = record {
  magic = take 4 bytes;
  role = get_or bytes 4 0;
  device_id = get_or bytes 5 0;
  reserved = get_or bytes 6 0 ∷ get_or bytes 7 0 ∷ [];
}

unfoldable pub encode : PairingRequest → List ℕ
encode b = b.magic ++ b.role ∷ b.device_id ∷ b.reserved
