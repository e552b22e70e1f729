-- ===== src/Storage/State.antt =====
-- The state of `MemoryStore`, and operations on it that may fail.
use oiaf.Base.{ℕ, String, Option, none, some, List, []}
use oiaf.Base.Table.{Table}
use oiaf.Base.Action.{Result, ok, err, Action}
use oiaf.Types.Entities.{
  Identity, Device, Resource, Adapter, Policy, Challenge, Factor, AuthToken, AuditEvent,
}
use oiaf.Types.Directory.{BehaviouralProfile}
use oiaf.Types.Errors.{Error, not_found}

pub record Store : Type 0 where
  pub identities : Table Identity
  pub devices : Table Device
  pub resources : Table Resource
  pub adapters : Table Adapter
  pub policies : Table Policy
  pub challenges : Table Challenge
  pub factors : Table Factor
  pub auth_tokens : Table AuthToken
  pub audit_events : List AuditEvent
  pub audit_last_hash : List ℕ
  pub behavioural_profiles : Table BehaviouralProfile

abbrev pub new_memory_store : Store
new_memory_store = record {
  identities = [];
  devices = [];
  resources = [];
  adapters = [];
  policies = [];
  challenges = [];
  factors = [];
  auth_tokens = [];
  audit_events = [];
  audit_last_hash = [];
  behavioural_profiles = [];
}

abbrev pub Db : Type 0 → Type 0
Db A = Action Error Store A

-- `if !ok { return nil, fmt.Errorf("not found: %s", id) }`
abbrev pub found_or : {A : Type 0} → Option A → String → Result Error A
found_or (some v) k = ok v
found_or none k = err (not_found k)
