-- ===== src/Types/Entities.antt =====
-- The entities that the store holds: core/internal/types/types.go. A `time.Time` is a number of
-- nanoseconds since the zero time, so that `IsZero` is the test for 0.
use oiaf.Base.{ℕ, ℤ, Bool, String, List, Option}
use oiaf.Types.Enums.{
  Decision, ChallengeStatus, MfaMethod, FactorStatus, Role, ActorType, TargetType,
}
use oiaf.Types.Access.{ChallengeSpec}
use oiaf.Json.{Json}

abbrev pub Time : Type 0
Time = ℕ

pub record Identity : Type 0 where
  pub id : String
  pub username : String
  pub display_name : String
  pub type : String
  pub groups : List String
  pub email : String
  pub privileged : Bool
  pub usual_geo : String
  pub attributes : List (String × String)
  pub created_at : Time
  pub updated_at : Time

pub record Device : Type 0 where
  pub id : String
  pub identity_id : String
  pub name : String
  pub managed : Bool
  pub compliant : Bool
  pub secret_hash : List ℕ
  pub created_at : Time

pub record Resource : Type 0 where
  pub id : String
  pub type : String
  pub name : String
  pub sensitivity : String

pub record Adapter : Type 0 where
  pub id : String
  pub name : String
  pub type : String
  pub token_hash : String
  pub enabled : Bool
  pub created_at : Time

-- `conditions` is raw JSON; `none` is the empty message of a policy that was sent without any.
pub record Policy : Type 0 where
  pub id : String
  pub description : String
  pub enabled : Bool
  pub priority : ℤ
  pub effect : Decision
  pub conditions : Option Json
  pub challenge : Option ChallengeSpec
  pub created_at : Time
  pub updated_at : Time

pub record Challenge : Type 0 where
  pub id : String
  pub identity_id : String
  pub request_id : String
  pub methods : List MfaMethod
  pub status : ChallengeStatus
  pub push_number : ℤ
  pub nonce : String
  pub webauthn_session : String
  pub attempts : ℕ
  pub max_attempts : ℤ
  pub expires_at : Time
  pub created_at : Time
  pub resolved_at : Option Time

pub record Factor : Type 0 where
  pub id : String
  pub identity_id : String
  pub method : MfaMethod
  pub status : FactorStatus
  pub secret : String
  pub credentials : String
  pub created_at : Time

pub record AuthToken : Type 0 where
  pub id : String
  pub token_hash : String
  pub role : Role
  pub name : String
  pub expires_at : Option Time
  pub revoked : Bool
  pub created_at : Time

pub record AuditActor : Type 0 where
  pub type : ActorType
  pub id : String

pub record AuditTarget : Type 0 where
  pub type : TargetType
  pub id : String

pub record AuditEvent : Type 0 where
  pub id : String
  pub timestamp : Time
  pub type : String
  pub actor : AuditActor
  pub target : AuditTarget
  -- `none` is the empty decision
  pub decision : Option Decision
  pub risk_score : ℕ
  pub reasons : List String
  pub metadata : List (String × Json)
  pub previous_hash : List ℕ
  pub hash : List ℕ
