-- ===== src/Pairing/Messages/Confirm.antt =====
-- struct PairingConfirm: the coordinator accepts or rejects a request.
use ungula_lib_net.Base.{
  ℕ, Bool, ◌&&◌, List, [], ◌∷◌, ◌++◌, ◌==◌, get_or, take, memcmp_eq, if◌then◌else◌,
}
use ungula_lib_net.Pairing.Types.{pairing_magic, pairing_role_coordinator}

pub record PairingConfirm : Type 0 where
  pub magic : List ℕ
  pub role : ℕ
  pub accepted : ℕ
  pub channel : ℕ
  pub reserved : ℕ

unfoldable pub init : Bool → ℕ → PairingConfirm
init accept ch = record {
  magic = pairing_magic;
  role = pairing_role_coordinator;
  accepted = if accept then 1 else 0;
  channel = ch;
  reserved = 0;
}

unfoldable pub is_valid : PairingConfirm → Bool
is_valid c = memcmp_eq 4 c.magic pairing_magic && c.role == pairing_role_coordinator

unfoldable pub parse : List ℕ → PairingConfirm
parse bytes = record {
  magic = take 4 bytes;
  role = get_or bytes 4 0;
  accepted = get_or bytes 5 0;
  channel = get_or bytes 6 0;
  reserved = get_or bytes 7 0;
}

unfoldable pub encode : PairingConfirm → List ℕ
encode c = c.magic ++ c.role ∷ c.accepted ∷ c.channel ∷ c.reserved ∷ []
