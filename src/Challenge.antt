-- ===== src/Challenge.antt =====
-- The challenge orchestrator: core/internal/challenge/service.go. A method takes the readings of
-- the clock and the fresh identifiers that it uses as arguments, in the order of their use.
pub mod Next
pub mod Admission
pub mod Effects
pub mod History
pub mod Soundness
pub mod Outcomes
pub mod Creation
use oiaf.Base.{
  natural, ℤ, ℕ, suc, ◌+◌, ◌≤◌, ℤ, pos, ltb_ℤ, Bool, true, false, not, ◌&&◌, String, ◌==◌, Option,
  none, some, List, [], ◌∷◌, ltb, leb, exists_in, if◌then◌else◌,
}
use oiaf.Base.Table
use oiaf.Base.Action.{Result, ok, err, lift, guard, pure, modify, ◌>>=◌, ◌>>◌}
use oiaf.Types.Enums.{
  Decision, ChallengeStatus, MfaMethod, ActorType, TargetType, is_pending, method_eq,
}
use oiaf.Types.Entities.{Time, Challenge, AuditActor, AuditTarget}
use oiaf.Types.Errors.{
  Error, already_resolved, challenge_expired, too_many_attempts, invalid_code, number_mismatch,
  push_verification_failed, webauthn_not_configured, method_not_allowed, no_ceremony,
  invalid_assertion,
}
use oiaf.Storage.State.{Store, Db}
use oiaf.Storage.Challenges
use oiaf.Storage.AuditLog.{Hasher}
use oiaf.Audit
use oiaf.Audit.{Stamp, Report}
use oiaf.Mfa.Totp
use oiaf.Mfa.Totp.{TotpLib}
use oiaf.Mfa.Push
use oiaf.Mfa.Push.{PushService, Bytes, Moment}
use oiaf.Mfa.WebAuthn
use oiaf.Mfa.WebAuthn.{WebAuthnLib, Verification}

pub record Service : Type 0 where
  pub totp : TotpLib
  pub push : PushService
  pub webauthn : Option WebAuthnLib
  pub hasher : Hasher
  pub ttl : Time
  pub max_attempts : ℤ

-- A write through the shared pointer: the store sees it at once.
pub write : Challenge → Db Unit
write ch s = (ok tt, record s { challenges = Table.put s.challenges ch.id ch })

-- A call whose error is dropped.
abbrev ignore : Db Unit → Db Unit
ignore m s = (ok tt, (m s).1)

abbrev user_report : String → Challenge → Decision → String → Report
user_report type ch d reason = record {
  type = type;
  actor = record { type = ActorType.user; id = ch.identity_id };
  target = record { type = TargetType.challenge; id = ch.id };
  decision = some d;
  risk_score = 0;
  reasons = reason ∷ [];
  metadata = [];
}

abbrev created_report : Challenge → Report
created_report ch = record {
  type = "challenge.created";
  actor = record { type = ActorType.system; id = "system" };
  target = record { type = TargetType.challenge; id = ch.id };
  decision = some Decision.challenge;
  risk_score = 0;
  reasons = [];
  metadata = [];
}

-- The loop that draws a number if the push method is offered.
unfoldable pub push_number : Option ℕ → List MfaMethod → Result Error ℤ
unfolding method_eq Push.generate_number
push_number draw [] = ok (pos 0)
push_number draw (m ∷ r) =
    let rest = push_number draw r in
    if method_eq m MfaMethod.push then Push.generate_number draw else rest

-- The fresh values of `Create`: identifiers, what the random source gives, and two clock readings.
pub record Fresh : Type 0 where
  pub id : String
  pub nonce : String
  pub draw : Option ℕ
  pub expiry_base : Time
  pub created_at : Time
  pub stamp : Stamp

abbrev pub new_challenge : Service → Fresh → String → String → List MfaMethod → ℤ → Challenge
new_challenge svc fresh identity_id request_id methods n = record {
  id = fresh.id;
  identity_id = identity_id;
  request_id = request_id;
  methods = methods;
  status = ChallengeStatus.pending;
  push_number = n;
  nonce = fresh.nonce;
  webauthn_session = "";
  attempts = 0;
  max_attempts = svc.max_attempts;
  expires_at = fresh.expiry_base + svc.ttl;
  created_at = fresh.created_at;
  resolved_at = none;
}

unfoldable pub create : Service → Fresh → String → String → List MfaMethod → Db Challenge
unfolding push_number Challenges.create Audit.emit
create svc fresh identity_id request_id methods = do
  n ← lift (push_number fresh.draw methods)
  let ch = new_challenge svc fresh identity_id request_id methods n
  Challenges.create ch
  ignore (Audit.emit svc.hasher fresh.stamp (created_report ch))
  pure ch

-- `time.Now().After(ch.ExpiresAt)`
abbrev pub is_expired : Time → Challenge → Bool
is_expired now ch = ltb ch.expires_at now

abbrev with_status : ChallengeStatus → Challenge → Challenge
with_status st ch = record ch { status = st }

-- The lifecycle gates: pending, not expired, attempts left.
unfoldable pub pre_verify : Time → String → Db Challenge
unfolding write Challenges.get Challenges.update
pre_verify now id = do
  ch ← Challenges.get id
  if not (is_pending ch.status)
      then lift (err already_resolved)
      else if is_expired now ch
      then (do
        ignore (Challenges.update (with_status ChallengeStatus.expired ch))
        lift (err challenge_expired))
      else if leb (natural ch.max_attempts) ch.attempts
      then (do
        ignore (Challenges.update (with_status ChallengeStatus.failed ch))
        lift (err too_many_attempts))
      else pure ch

-- `ch.Attempts++`
abbrev pub tried : Challenge → Challenge
tried ch = record ch { attempts = suc ch.attempts }

-- The challenge approved at a time.
abbrev pub approved : Time → Challenge → Challenge
approved now ch = record ch { status = ChallengeStatus.approved; resolved_at = some now }

-- `if ch.Attempts >= ch.MaxAttempts { ch.Status = failed }`
abbrev pub after_failure : Challenge → Challenge
after_failure ch =
    if leb (natural ch.max_attempts) ch.attempts then with_status ChallengeStatus.failed ch else ch

-- The end of a verification that succeeded.
unfoldable pub approve : Service → Time → Stamp → String → Challenge → Db Challenge
approve svc now stamp reason ch = do
  ignore (Challenges.update (approved now ch))
  ignore (
      Audit.emit svc.hasher stamp
        (user_report "challenge.verified" (approved now ch) Decision.allow reason))
  pure (approved now ch)

-- The end of a verification that failed, with its audit event.
unfoldable pub reject : Service → Stamp → String → Error → Challenge → Db Challenge
reject svc stamp reason e ch = do
  ignore (Challenges.update (after_failure ch))
  ignore (
      Audit.emit svc.hasher stamp
        (user_report "challenge.failed" (after_failure ch) Decision.deny reason))
  lift (err e)

-- Three readings of the clock: at the gates, at the factor, at the resolution.
pub record Clock : Type 0 where
  pub checked : Time
  pub verified : Time
  pub resolved : Time

unfoldable pub verify_totp : Service → Clock → Stamp → String → String → Db Challenge
verify_totp svc clock stamp challenge_id code = do
  found ← pre_verify clock.checked challenge_id
  let ch = tried found
  write ch
  valid ← Totp.verify svc.totp clock.verified ch.identity_id code
  if valid
      then approve svc clock.resolved stamp "totp_verified" ch
      else reject svc stamp "totp_invalid" invalid_code ch

-- The arguments of `VerifyPush` beside the challenge.
pub record Approval : Type 0 where
  pub device_id : String
  pub number : ℤ
  pub signature : Bytes
  pub timestamp : Moment

unfoldable pub int_eq : ℤ → ℤ → Bool
int_eq a b = not (ltb_ℤ a b) && not (ltb_ℤ b a)

-- What follows the check of the push service.
pub conclude_push : Service → Clock → Stamp → Challenge → Result Error (Unit {0}) → Db Challenge
conclude_push svc clock stamp ch (err e) = do
  ignore (Challenges.update (after_failure ch))
  lift (err (push_verification_failed e))
conclude_push svc clock stamp ch (ok u) = approve svc clock.resolved stamp "push_verified" ch

unfoldable pub verify_push : Service → Clock → Stamp → String → Approval → Db Challenge
verify_push svc clock stamp challenge_id a = do
  found ← pre_verify clock.checked challenge_id
  let ch = tried found
  write ch
  if not (int_eq a.number ch.push_number)
      then (do ignore (Challenges.update ch); lift (err number_mismatch))
      else λ s.
          conclude_push svc clock stamp ch
            (Push.verify_approval svc.push clock.verified a.device_id challenge_id a.number
              a.signature a.timestamp s).0
            s

unfoldable pub allows_method : Challenge → MfaMethod → Bool
unfolding method_eq
allows_method ch method = exists_in (λ m. method_eq m method) ch.methods

-- `BeginWebAuthn`, with the WebAuthn service if it is configured; returns the browser's options.
unfoldable pub begin_with : Option WebAuthnLib → Time → String → Db String
begin_with none now challenge_id = lift (err webauthn_not_configured)
begin_with (some lib) now challenge_id = do
  ch ← Challenges.get challenge_id
  if not (is_pending ch.status)
      then lift (err already_resolved)
      else if is_expired now ch
      then (do
        ignore (Challenges.update (with_status ChallengeStatus.expired ch))
        lift (err challenge_expired))
      else if not (allows_method ch MfaMethod.webauthn)
      then lift (err method_not_allowed)
      else (do
        started ← WebAuthn.begin_verification lib ch.identity_id
        Challenges.update (record ch { webauthn_session = started.1 })
        pure started.0)

unfoldable pub begin_webauthn : Service → Time → String → Db String
begin_webauthn svc now challenge_id = begin_with svc.webauthn now challenge_id

-- The two results of `FinishWebAuthn`: on success the challenge, with an error beside it if the
-- sign counter was not stored.
pub record Finished : Type 0 where
  pub challenge : Option Challenge
  pub error : Option Error

abbrev refused : Error → Finished
refused e = record { challenge = none; error = some e }

-- `if verifyErr == nil { verifyErr = fmt.Errorf("invalid assertion") }`
abbrev or_invalid_assertion : Option Error → Error
or_invalid_assertion none = invalid_assertion
or_invalid_assertion (some e) = e

-- The challenge once its ceremony session is taken.
abbrev pub session_taken : Challenge → Challenge
session_taken ch = record (tried ch) { webauthn_session = "" }

-- What follows the ceremony.
pub conclude_webauthn :
    Service → Clock → Stamp → Challenge → Verification → Store → Finished × Store
conclude_webauthn svc clock stamp ch v s =
    if v.valid
    then (
      record { challenge = some (approved clock.resolved ch); error = v.error },
      (approve svc clock.resolved stamp "webauthn_verified" ch s).1,
    )
    else (
      refused (or_invalid_assertion v.error),
      (reject svc stamp "webauthn_invalid" invalid_assertion ch s).1,
    )

-- What follows the gates of `preVerify`.
pub admitted_webauthn :
    Service → WebAuthnLib → Clock → Stamp → String → Challenge → Store → Finished × Store
admitted_webauthn svc lib clock stamp response found s =
    if not (allows_method found MfaMethod.webauthn)
    then (refused method_not_allowed, s)
    else if found.webauthn_session == ""
    then (refused no_ceremony, s)
    else (let ch = session_taken found in
        let (v, s') =
          WebAuthn.finish_verification lib ch.identity_id found.webauthn_session response
            (write ch s).1 in
        conclude_webauthn svc clock stamp ch v s')

pub after_gates :
    Service
    → WebAuthnLib
    → Clock
    → Stamp
    → String
    → Result Error Challenge × Store
    → Finished × Store
after_gates svc lib clock stamp response (err e, s) = (refused e, s)
after_gates svc lib clock stamp response (ok found, s) =
    admitted_webauthn svc lib clock stamp response found s

-- `FinishWebAuthn`, with the WebAuthn service if it is configured.
unfoldable pub finish_with :
    Service → Option WebAuthnLib → Clock → Stamp → String → String → Store → Finished × Store
finish_with svc none clock stamp challenge_id response s = (refused webauthn_not_configured, s)
finish_with svc (some lib) clock stamp challenge_id response s =
    after_gates svc lib clock stamp response (pre_verify clock.checked challenge_id s)

unfoldable pub finish_webauthn :
    Service → Clock → Stamp → String → String → Store → Finished × Store
finish_webauthn svc clock stamp challenge_id response s =
    finish_with svc svc.webauthn clock stamp challenge_id response s

unfoldable pub get : String → Db Challenge
get id = Challenges.get id

unfoldable pub list : Db (List Challenge)
list = Challenges.list
