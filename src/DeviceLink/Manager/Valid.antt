-- ===== src/DeviceLink/Manager/Valid.antt =====
-- crates/rshome-device-link/src/manager.rs: what it is for the manager's records to be in order.
use zt_edge.Common.{◌≤◌, ◌≡◌, refl, String, none, some, length, Dict, lookup, text_discrete, arith}
use zt_edge.DeviceLink.Manager.{
  ConnectedDevice, DeviceSecurityConfig, Manager, session_cap_of, max_discovered, new,
  DeviceLinkLimits,
}
use zt_edge.DeviceLink.Manager.Handlers.{stop_manager}
use zt_edge.DeviceLink.Manager.Records.{IsOwn}

pub record IsValid (s : Manager) : Type 0 where
  pub discovered_bound : length s.discovered ≤ max_discovered
  pub sessions_bound : length s.sessions ≤ session_cap_of s.limits
  pub own : IsOwn s.discovered
  pub sessions_known :
      (id : String)
      → lookup text_discrete id s.discovered ≡ none
      → lookup text_discrete id s.sessions ≡ none
  pub identified_known :
      (id : String)
      → lookup text_discrete id s.discovered ≡ none
      → lookup text_discrete id s.provisional_to_canonical ≡ none
  pub paired :
      (p c : String)
      → lookup text_discrete p s.provisional_to_canonical ≡ some c
      → lookup text_discrete c s.canonical_to_provisional ≡ some p
  pub registered :
      (c : String)
      → lookup text_discrete c s.canonical ≡ none
      → lookup text_discrete c s.canonical_to_provisional ≡ none

pub new-IsValid : (limits : DeviceLinkLimits) → IsValid (new limits)
unfolding new IsOwn lookup session_cap_of
new-IsValid limits = record {
  discovered_bound = omega arith;
  sessions_bound = omega arith;
  own = tt;
  sessions_known = λ id h. refl;
  identified_known = λ id h. refl;
  paired = λ p c h. ground (arith, h);
  registered = λ c h. refl;
}

pub restored-IsValid :
    (s : Manager) (m : Dict String ConnectedDevice)
    → IsValid s
    → IsValid (record s { restored = m })
restored-IsValid s m v = record {
  discovered_bound = v.discovered_bound;
  sessions_bound = v.sessions_bound;
  own = v.own;
  sessions_known = v.sessions_known;
  identified_known = v.identified_known;
  paired = v.paired;
  registered = v.registered;
}

pub security_configs-IsValid :
    (s : Manager) (m : Dict String DeviceSecurityConfig)
    → IsValid s
    → IsValid (record s { security_configs = m })
security_configs-IsValid s m v = record {
  discovered_bound = v.discovered_bound;
  sessions_bound = v.sessions_bound;
  own = v.own;
  sessions_known = v.sessions_known;
  identified_known = v.identified_known;
  paired = v.paired;
  registered = v.registered;
}

pub stop_manager-IsValid :
    (State : Type 0) (s : Manager) → IsValid s → IsValid ((stop_manager {State = State} s).0)
unfolding stop_manager lookup
stop_manager-IsValid State s v = record {
  discovered_bound = v.discovered_bound;
  sessions_bound = omega arith;
  own = v.own;
  sessions_known = λ id h. refl;
  identified_known = λ id h. refl;
  paired = λ p c h. ground (arith, h);
  registered = λ c h. refl;
}
