-- ===== src/Connection/Config.antt =====
-- src/connection/connection_config.h: policies, states, and the timing of the manager.
use ungula_lib_net.Base.{ℕ}

-- `static` is ConnectionPolicy::STATIC, `dynamic` is ConnectionPolicy::DYNAMIC.
pub data ConnectionPolicy : Type 0 where
  static dynamic : ConnectionPolicy

pub data ConnMgrState : Type 0 where
  unpaired_discovery paired_connected paired_degraded : ConnMgrState
  reacquiring_static reacquiring_dynamic : ConnMgrState

pub record ConnectionConfig : Type 0 where
  pub policy : ConnectionPolicy
  pub heartbeat_timeout_ms : ℕ  -- uint32_t
  pub degraded_grace_period_ms : ℕ  -- uint32_t
  pub static_probe_interval_ms : ℕ  -- uint32_t
  pub static_max_probes : ℕ  -- uint8_t
  pub dynamic_probe_interval_ms : ℕ  -- uint32_t
  pub boot_grace_period_ms : ℕ  -- uint32_t

-- The member initialisers.
abbrev pub default_config : ConnectionConfig
default_config = record {
  policy = dynamic;
  heartbeat_timeout_ms = 2000;
  degraded_grace_period_ms = 500;
  static_probe_interval_ms = 1000;
  static_max_probes = 5;
  dynamic_probe_interval_ms = 500;
  boot_grace_period_ms = 3000;
}
