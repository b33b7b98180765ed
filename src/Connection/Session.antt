-- ===== src/Connection/Session.antt =====
-- src/connection/i_session_provider.h: what the connection manager asks of a transport, as an
-- interface over the provider's state `S`, and the documented behaviour that clients rely on.
use ungula_lib_net.Base.{ℕ, ◌≡◌, Bool, true, false}

pub record SessionProvider (S : Type 0) : Type 0 where
  pub has_pairing : S → Bool
  pub start_discovery : S → S
  pub loop_discovery : ℕ → S → S
  pub is_discovery_complete : S → Bool
  pub send_probe : S → S
  pub start_reacquisition : S → S
  pub loop_reacquisition : ℕ → S → S × Bool
  pub is_reacquisition_complete : S → Bool
  pub reset_reacquisition : S → S

-- Probing and reacquisition keep the pairing, discovery is complete only with one, and a
-- reacquisition that has just been started or reset has not been answered.
pub record IsSessionProvider {S : Type 0} (p : SessionProvider S) : Type 0 where
  pub discovered : (s : S) → p.is_discovery_complete s ≡ true → p.has_pairing s ≡ true
  pub has_pairing-send_probe : (s : S) → p.has_pairing (p.send_probe s) ≡ p.has_pairing s
  pub has_pairing-start_reacquisition :
      (s : S) → p.has_pairing (p.start_reacquisition s) ≡ p.has_pairing s
  pub has_pairing-loop_reacquisition :
      (now : ℕ) (s : S) → p.has_pairing (p.loop_reacquisition now s).0 ≡ p.has_pairing s
  pub has_pairing-reset_reacquisition :
      (s : S) → p.has_pairing (p.reset_reacquisition s) ≡ p.has_pairing s
  pub start_incomplete : (s : S) → p.is_reacquisition_complete (p.start_reacquisition s) ≡ false
  pub reset_incomplete : (s : S) → p.is_reacquisition_complete (p.reset_reacquisition s) ≡ false
