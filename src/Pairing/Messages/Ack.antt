-- ===== src/Pairing/Messages/Ack.antt =====
-- struct ReconnectAck: a coordinator tells a client its channel.
use ungula_lib_net.Base.{ℕ, Bool, List, [], ◌∷◌, ◌++◌, get_or, take, memcmp_eq}
use ungula_lib_net.Pairing.Messages.Probe.{reconnect_magic}

pub record ReconnectAck : Type 0 where
  pub magic : List ℕ
  pub channel : ℕ
  pub reserved : List ℕ

unfoldable pub init : ℕ → ReconnectAck
init ch = record { magic = reconnect_magic; channel = ch; reserved = 0 ∷ 0 ∷ 0 ∷ [] }

unfoldable pub is_valid : ReconnectAck → Bool
is_valid p = memcmp_eq 4 p.magic reconnect_magic

unfoldable pub parse : List ℕ → ReconnectAck
parse bytes = record {
  magic = take 4 bytes;
  channel = get_or bytes 4 0;
  reserved = get_or bytes 5 0 ∷ get_or bytes 6 0 ∷ get_or bytes 7 0 ∷ [];
}

unfoldable pub encode : ReconnectAck → List ℕ
encode p = p.magic ++ p.channel ∷ p.reserved
