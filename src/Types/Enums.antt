-- ===== src/Types/Enums.antt =====
-- The string types with named constants of core/internal/types/types.go. A type whose values come
-- from outside (a policy's JSON, a caller's argument) has a constructor `other` for every other
-- text; the statuses are only ever set by the program itself and have none.
use oiaf.Base.{Bool, true, false, String, ◌==◌, ◌≡◌, arith, eq_iff, refl, str_eq_self}

pub data Decision : Type 0 where
  allow deny challenge alert : Decision
  other : String → Decision

pub data ChallengeStatus : Type 0 where
  pending approved denied expired failed : ChallengeStatus

pub data MfaMethod : Type 0 where
  totp push webauthn email sms : MfaMethod
  other : String → MfaMethod

pub data FactorStatus : Type 0 where
  pending_activation active revoked : FactorStatus

pub data Role : Type 0 where
  admin auditor adapter service : Role
  other : String → Role

pub data ActorType : Type 0 where
  user adapter admin system : ActorType

pub data TargetType : Type 0 where
  identity resource policy challenge adapter : TargetType

-- `==` on the string types.
unfoldable pub method_eq : MfaMethod → MfaMethod → Bool
method_eq MfaMethod.totp MfaMethod.totp = true
method_eq MfaMethod.push MfaMethod.push = true
method_eq MfaMethod.webauthn MfaMethod.webauthn = true
method_eq MfaMethod.email MfaMethod.email = true
method_eq MfaMethod.sms MfaMethod.sms = true
method_eq (MfaMethod.other a) (MfaMethod.other b) = a == b
method_eq _ _ = false

unfoldable pub role_eq : Role → Role → Bool
role_eq Role.admin Role.admin = true
role_eq Role.auditor Role.auditor = true
role_eq Role.adapter Role.adapter = true
role_eq Role.service Role.service = true
role_eq (Role.other a) (Role.other b) = a == b
role_eq _ _ = false

abbrev pub is_pending : ChallengeStatus → Bool
is_pending ChallengeStatus.pending = true
is_pending _ = false

abbrev pub is_active : FactorStatus → Bool
is_active FactorStatus.active = true
is_active _ = false

abbrev pub is_pending_activation : FactorStatus → Bool
is_pending_activation FactorStatus.pending_activation = true
is_pending_activation _ = false

abbrev pub is_deny : Decision → Bool
is_deny Decision.deny = true
is_deny _ = false

-- The text of a constant.
abbrev pub decision_text : Decision → String
decision_text Decision.allow = "allow"
decision_text Decision.deny = "deny"
decision_text Decision.challenge = "challenge"
decision_text Decision.alert = "alert"
decision_text (Decision.other s) = s

abbrev pub target_text : TargetType → String
target_text TargetType.identity = "identity"
target_text TargetType.resource = "resource"
target_text TargetType.policy = "policy"
target_text TargetType.challenge = "challenge"
target_text TargetType.adapter = "adapter"

pub role_eq_self : (r : Role) → role_eq r r ≡ true
unfolding role_eq
role_eq_self Role.admin = refl
role_eq_self Role.auditor = refl
role_eq_self Role.adapter = refl
role_eq_self Role.service = refl
role_eq_self (Role.other s) = str_eq_self s

pub role_eq→eq : (r s : Role) → role_eq r s ≡ true → r ≡ s
unfolding role_eq
role_eq→eq (Role.other a) (Role.other b) h = ground (arith, eq_iff a b)
role_eq→eq r s h = ground arith
