-- ===== src/Api.antt =====
-- The access decision of the HTTP interface: core/internal/api/api.go, `handleAccessEvaluate` and
-- `handleChallengeVerify`. The status line and the body of the response are the result; the
-- integration bus, which is written to after the decision and never read, is left out.
pub mod Routes
pub mod Settling
pub mod Decisions
use oiaf.Base.{
  ℕ, ℤ, Bool, true, false, not, ◌&&◌, String, ◌==◌, Option, none, some, List, [], ◌∷◌, ◌++◌,
  is_empty, if◌then◌else◌,
}
use oiaf.Base.Action.{Result, ok, err, Action, lift, pure, ◌>>=◌, ◌>>◌}
use oiaf.Types.Enums.{Decision, MfaMethod, ActorType, TargetType, is_deny}
use oiaf.Types.Access.{AccessRequest, AccessDecision, ChallengeInfo, ChallengeSpec, PolicyDecision}
use oiaf.Types.Entities.{Time, Challenge, Identity}
use oiaf.Types.Errors.{Error}
use oiaf.Storage.State.{Store, Db}
use oiaf.Storage.Identities
use oiaf.Risk
use oiaf.Risk.{Thresholds}
use oiaf.Policy
use oiaf.Policy.{EngineLib}
use oiaf.Audit
use oiaf.Audit.{Stamp, Report}
use oiaf.Challenge as Orchestrator
use oiaf.Challenge.{Service, Fresh, Clock, Approval}

-- The handler's parts, and its fresh values.
pub record Handler : Type 0 where
  pub thresholds : Thresholds
  pub engine : EngineLib
  pub service : Service

pub record Moment : Type 0 where
  pub request_id : String
  pub fresh : Fresh
  pub stamp : Stamp

-- The responses that are errors: 400 with a text of the handler or an operation's error, 404, 500
-- and 503; a 500 may carry the operation's error after its text.
pub data HttpError : Type 0 where
  bad_request internal_error missing unavailable : String → HttpError
  failed : String → Error → HttpError
  refused : Error → HttpError

abbrev pub Request : Type 0 → Type 0
Request A = Action HttpError Store A

-- An operation whose error becomes a response.
abbrev or_respond : {A : Type 0} → (Error → HttpError) → Result Error A → Result HttpError A
or_respond f (ok a) = ok a
or_respond f (err e) = err (f e)

abbrev pub call : {A : Type 0} → (Error → HttpError) → Db A → Request A
call f m s = let (r, s') = m s in (or_respond f r, s')

-- The body of a request, if it decodes.
abbrev pub body_or_400 : {A : Type 0} → Option A → Request A
body_or_400 none = lift (err (bad_request "invalid request body"))
body_or_400 (some a) = pure a

-- The override of the policy's decision by the level of risk.
pub record Outcome : Type 0 where
  pub decision : Decision
  pub reasons : List String

unfoldable pub override : String → Decision → List String → Outcome
override level d reasons =
    if level == "critical"
    then record {
      decision = Decision.deny;
      reasons = reasons ++ "risk_level_critical_override" ∷ [];
    }
    else if (level == "very_high") && not (is_deny d)
    then record {
      decision = Decision.challenge;
      reasons = reasons ++ "risk_level_very_high_challenge" ∷ [];
    }
    else record { decision = d; reasons = reasons }

-- `policyDecision.Challenge != nil && len(policyDecision.Challenge.Methods) > 0`
unfoldable pub challenge_methods : Option ChallengeSpec → List MfaMethod
challenge_methods none = MfaMethod.totp ∷ []
challenge_methods (some spec) = if is_empty spec.methods then MfaMethod.totp ∷ [] else spec.methods

abbrev id_or : String → Result Error Identity → String
id_or username (ok identity) = identity.id
id_or username (err e) = username

-- The identifier of the identity that has this name, or the name itself.
unfoldable pub identity_of : String → Store → String
unfolding Identities.get_by_username
identity_of username s = id_or username (Identities.get_by_username username s).0

abbrev info : Challenge → ChallengeInfo
info ch = record { id = ch.id; methods = ch.methods; expires_at = ch.expires_at }

-- What the `switch decision` leaves: the decision, its reasons and the challenge.
pub record Settled : Type 0 where
  pub outcome : Outcome
  pub challenge : Option ChallengeInfo

unfoldable pub settle :
    Handler
    → Moment
    → AccessRequest
    → Option ChallengeSpec
    → Decision
    → List String
    → Request Settled
settle h now req spec Decision.challenge reasons s =
    call (λ e. internal_error "failed to create challenge")
      (do
        ch ←
            Orchestrator.create h.service now.fresh (identity_of req.identity.username s)
              now.request_id (challenge_methods spec)
        pure (record {
          outcome = record { decision = Decision.challenge; reasons = reasons };
          challenge = some (info ch);
        }))
      s
settle h now req spec Decision.alert reasons s = (
  ok (record {
    outcome = record { decision = Decision.allow; reasons = reasons ++ "alert_logged" ∷ [] };
    challenge = none;
  }),
  s,
)
settle h now req spec d reasons s =
    (ok (record { outcome = record { decision = d; reasons = reasons }; challenge = none }), s)

unfoldable pub access_report : AccessRequest → Outcome → ℕ → Report
access_report req o score = record {
  type = "access.evaluate";
  actor = record { type = ActorType.user; id = req.identity.username };
  target = record { type = TargetType.resource; id = req.resource.name };
  decision = some o.decision;
  risk_score = score;
  reasons = o.reasons;
  metadata = [];
}

-- From the settled decision to the response.
unfoldable pub respond : Handler → Moment → AccessRequest → ℕ → Settled → Request AccessDecision
unfolding access_report Audit.emit
respond h now req score settled s = (
  ok (record {
    request_id = now.request_id;
    decision = settled.outcome.decision;
    risk_score = score;
    reasons = settled.outcome.reasons;
    challenge = settled.challenge;
  }),
  (Audit.emit h.service.hasher now.stamp (access_report req settled.outcome score) s).1,
)

-- The body of the request, if it decodes, becomes the decision.
unfoldable pub handle_access_evaluate :
    Handler → Moment → Option AccessRequest → Request AccessDecision
unfolding override
handle_access_evaluate h now none = lift (err (bad_request "invalid request body"))
handle_access_evaluate h now (some req) = do
  policy_decision ←
      call (λ e. internal_error "policy evaluation failed") (Policy.evaluate h.engine req)
  let risk = Risk.score h.thresholds req
  let o = override risk.level policy_decision.effect (policy_decision.reasons ++ risk.reasons)
  settled ← settle h now req policy_decision.challenge o.decision o.reasons
  respond h now req risk.score settled

-- The body of `POST /v1/challenge/{id}/verify`.
pub record VerifyBody : Type 0 where
  pub method : String
  pub code : String
  pub approval : Approval

unfoldable pub handle_challenge_verify :
    Handler → Clock → Stamp → String → Option VerifyBody → Request Challenge
unfolding Orchestrator.verify_totp Orchestrator.verify_push
handle_challenge_verify h clock stamp id none = lift (err (bad_request "invalid request body"))
handle_challenge_verify h clock stamp id (some body) =
    if body.method == "totp"
    then call (λ e. refused e) (Orchestrator.verify_totp h.service clock stamp id body.code)
    else if body.method == "push"
    then call (λ e. refused e) (Orchestrator.verify_push h.service clock stamp id body.approval)
    else lift (err (bad_request "unsupported method"))
