-- ===== src/Types/Access.antt =====
-- The access request and its decision: core/internal/types/types.go.
use oiaf.Base.{ℕ, ℤ, Bool, String, List, Option}
use oiaf.Types.Enums.{Decision, MfaMethod}

pub record AccessIdentity : Type 0 where
  pub username : String
  pub groups : List String
  pub type : String
  pub privileged : Bool
  pub usual_geo : String
  pub last_logon_days : ℤ
  pub password_never_expires : Bool
  pub has_spn : Bool
  pub is_gmsa : Bool

pub record AccessResource : Type 0 where
  pub type : String
  pub name : String
  pub sensitivity : String

pub record AccessProtocol : Type 0 where
  pub name : String

pub record AccessSource : Type 0 where
  pub ip : String
  pub geo : String
  pub reputation : String

pub record AccessDevice : Type 0 where
  pub managed : Bool
  pub compliant : Bool

pub record AccessContext : Type 0 where
  pub mfa_recent : Bool
  pub interactive : Bool
  pub baseline_deviation : Bool

pub record AccessRequest : Type 0 where
  pub identity : AccessIdentity
  pub resource : AccessResource
  pub protocol : AccessProtocol
  pub source : AccessSource
  pub device : AccessDevice
  pub context : AccessContext

pub record ChallengeInfo : Type 0 where
  pub id : String
  pub methods : List MfaMethod
  pub expires_at : ℕ

pub record AccessDecision : Type 0 where
  pub request_id : String
  pub decision : Decision
  pub risk_score : ℕ
  pub reasons : List String
  pub challenge : Option ChallengeInfo

-- The method list of a policy with effect `challenge`.
pub record ChallengeSpec : Type 0 where
  pub methods : List MfaMethod

pub record RiskResult : Type 0 where
  pub score : ℕ
  pub level : String
  pub reasons : List String

pub record PolicyDecision : Type 0 where
  pub effect : Decision
  pub policy_id : String
  pub reasons : List String
  pub challenge : Option ChallengeSpec
