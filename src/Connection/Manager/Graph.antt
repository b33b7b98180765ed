-- ===== src/Connection/Manager/Graph.antt =====
-- The transition diagram of the manager, with timers and the session left out.
use ungula_lib_net.Base.{◌≡◌, ◌≢◌}
use ungula_lib_net.Connection.Config.{
  ConnectionPolicy, static, dynamic, ConnMgrState, paired_connected, paired_degraded,
  reacquiring_static, reacquiring_dynamic,
}

-- Under a policy, what one event may change the state to.
pub data Edge (policy : ConnectionPolicy) : ConnMgrState → ConnMgrState → Type 0 where
  stay : {s : ConnMgrState} → Edge policy s s
  connect : {s : ConnMgrState} → Edge policy s paired_connected
  degrade : Edge policy paired_connected paired_degraded
  recover : Edge policy paired_degraded reacquiring_static
  escalate : policy ≡ dynamic → Edge policy reacquiring_static reacquiring_dynamic

pub data Route (policy : ConnectionPolicy) : ConnMgrState → ConnMgrState → Type 0 where
  here : {s : ConnMgrState} → Route policy s s
  then : {s t u : ConnMgrState} → Edge policy s t → Route policy t u → Route policy s u

ruleset edges = (stay, connect, degrade, recover, escalate)

-- Only the dynamic policy has a way into broad reacquisition.
Edge-static :
    {s t : ConnMgrState} → Edge static s t → s ≢ reacquiring_dynamic → t ≢ reacquiring_dynamic
Edge-static stay h = h
Edge-static connect h = λ e. cc
Edge-static degrade h = λ e. cc
Edge-static recover h = λ e. cc
Edge-static (escalate e) h = λ _. cc

Route-static :
    {s t : ConnMgrState} → Route static s t → s ≢ reacquiring_dynamic → t ≢ reacquiring_dynamic
Route-static here h = h
Route-static (then e r) h = Route-static r (Edge-static e h)
