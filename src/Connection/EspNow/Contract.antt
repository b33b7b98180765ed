-- ===== src/Connection/EspNow/Contract.antt =====
-- The ESP-NOW provider keeps the contract of a session provider.
use ungula_lib_net.Base.{refl, arith}
use ungula_lib_net.Comm.Transport.{Transport}
use ungula_lib_net.Connection.Session.{IsSessionProvider}
use ungula_lib_net.Connection.EspNow.{espnow_provider}

module _ {T P : Type 0} ⦃tr : Transport T⦄ where
  -- The ESP-NOW provider keeps what the connection manager relies on of a session provider: a
  -- completed discovery has a pairing, probing and reacquiring keep the pairing, and a reacquisition
  -- that was just started or reset is not complete.
  pub espnow_provider-IsSessionProvider : IsSessionProvider (espnow_provider {T = T} {P = P})
  unfolding espnow_provider
  espnow_provider-IsSessionProvider = record {
    discovered = λ s h. h;
    has_pairing-send_probe = λ s. ground arith;
    has_pairing-start_reacquisition = λ s. refl;
    has_pairing-loop_reacquisition = λ now s. ground arith;
    has_pairing-reset_reacquisition = λ s. refl;
    start_incomplete = λ s. refl;
    reset_incomplete = λ s. refl;
  }
