-- ===== src/Tests/Access.antt =====
-- Access decisions and policies at concrete inputs.
use oiaf.Base.{
  codes, exists_in, sym, ap, ltb_ℤ, ◌≤◌, true, false, ◌≡◌, ◌≢◌, ◌⊎◌, refl, inl, inr, some, none,
  List, [], ◌∷◌, ◌++◌, arith, filter_by, bytes_eq,
}
use oiaf.Base.Table
use oiaf.Base.Action.{from_parts, ok, err}
use oiaf.Json.{size}
use oiaf.Challenge as Orchestrator
use oiaf.Types.Enums.{MfaMethod, method_eq, Decision, ChallengeStatus}
use oiaf.Types.Access.{AccessRequest, AccessDecision, PolicyDecision}
use oiaf.Types.Entities.{Policy, Challenge, AuditEvent}
use oiaf.Storage.State.{Store}
use oiaf.Risk
use oiaf.Risk.{default_thresholds, score, capped, level}
use oiaf.Risk.Levels.{severity, score_mono}
use oiaf.Policy.Sensitivity.{IsLow}
use oiaf.Policy.{evaluate, decision_of, matches, order, default_decision, conclude}
use oiaf.Policy.Values.{sprint, split_parts, split, lower, decodes}
use oiaf.Policy.Request.{request_to_map, lookup, resolve_parts, resolve_path}
use oiaf.Policy.Conditions.{
  nested_too_deep, is_key, decode_field, decode_fields, unmarshal, compare_eq, apply_operator,
  evaluate_leaf, evaluate_node, evaluate_conditions,
}
use oiaf.Policy.Conditions.Fuel.{evaluate_conditions-fuel}
use oiaf.Policy.Precedence.{
  Applies, evaluate-strictest, evaluate-deny_wins, evaluate-no_policy, evaluate-order_free,
}
use oiaf.Api.{handle_access_evaluate, identity_of, challenge_methods, settle, respond, override}
use oiaf.Api.Decisions.{access-denied, access-allowed, access-challenged, access-audited}
use oiaf.Tests.Sorting.{insert, by_priority, by_strictness, insertion_sort}
use oiaf.Tests.Data.{handler, moment, request, engine, policy, with_policy, store, condition}

matches_ntlm : (d : Decision) → matches engine.go (request_to_map request) (policy d) ≡ true
unfolding matches request_to_map evaluate_conditions unmarshal decode_fields decode_field is_key
    lower evaluate_node evaluate_leaf apply_operator compare_eq sprint resolve_path resolve_parts
    lookup split split_parts size bytes_eq decodes
matches_ntlm d = refl

decided :
    (d : Decision)
    → evaluate engine request (with_policy d) ≡ (ok (decision_of (policy d)), with_policy d)
unfolding evaluate conclude insertion_sort insert filter_by Table.values
decided d = rw (matches_ntlm d) refl

access-denied_example :
    (d : AccessDecision) × ((handle_access_evaluate handler moment
        (some request)
        (with_policy Decision.deny)).0
      ≡ ok d)
    × (d.decision ≡ Decision.deny)
    × (d.challenge ≡ none)
access-denied_example =
    access-denied handler moment request (with_policy Decision.deny)
      (decision_of (policy Decision.deny)) (decided Decision.deny) (inr refl)

abbrev response : AccessDecision
response = record {
  request_id = "r2";
  decision = Decision.allow;
  risk_score = 20;
  reasons = "policy p1 matched" ∷ ("weak_protocol_ntlm" ∷ []);
  challenge = none;
}

abbrev after : Store
after = (handle_access_evaluate handler moment (some request) (with_policy Decision.allow)).1

answered :
    (handle_access_evaluate handler moment (some request) (with_policy Decision.allow)).0
    ≡ ok response
unfolding handle_access_evaluate settle respond override score capped level Risk.tally Risk.add_if
    Risk.request_rules Risk.account_rules Risk.device_rules Risk.is_privileged_group
    Risk.is_geo_mismatch Risk.contains_group exists_in ltb_ℤ
answered = rw (decided Decision.allow) refl

handled :
    handle_access_evaluate handler moment (some request) (with_policy Decision.allow)
    ≡ (ok response, after)
handled = from_parts _ _ _ answered refl

access-allowed_example :
    (response.decision ≢ Decision.alert)
    × (response.decision ≡ Decision.allow
        → (((policy Decision.allow).effect ≡ Decision.allow)
            ⊎ ((policy Decision.allow).effect ≡ Decision.alert))
          × ((score default_thresholds request).level ≢ "critical")
          × ((score default_thresholds request).level ≢ "very_high"))
access-allowed_example =
    access-allowed handler moment request (with_policy Decision.allow)
      (decision_of (policy Decision.allow)) (decided Decision.allow) response after handled

abbrev challenged : AccessDecision
challenged = record {
  request_id = "r2";
  decision = Decision.challenge;
  risk_score = 20;
  reasons = "policy p1 matched" ∷ ("weak_protocol_ntlm" ∷ []);
  challenge = some (record { id = "c2"; methods = MfaMethod.totp ∷ []; expires_at = 1600 });
}

abbrev after_challenge : Store
after_challenge =
    (handle_access_evaluate handler moment (some request) (with_policy Decision.challenge)).1

answered_challenge :
    (handle_access_evaluate handler moment (some request) (with_policy Decision.challenge)).0
    ≡ ok challenged
unfolding handle_access_evaluate settle respond override score capped level Risk.tally Risk.add_if
    Risk.request_rules Risk.account_rules Risk.device_rules Risk.is_privileged_group
    Risk.is_geo_mismatch Risk.contains_group exists_in ltb_ℤ challenge_methods Orchestrator.create
    Orchestrator.push_number method_eq
answered_challenge = rw (decided Decision.challenge) refl

access-challenged_example :
    ((challenged.decision ≢ Decision.challenge) × (challenged.challenge ≡ none))
    ⊎ ((challenged.decision ≡ Decision.challenge)
        × ((ch : Challenge) × (challenged.challenge
              ≡ some (record { id = ch.id; methods = ch.methods; expires_at = ch.expires_at }))
            × (Table.get after_challenge.challenges "c2" ≡ some ch)
            × (ch.status ≡ ChallengeStatus.pending)
            × (ch.identity_id ≡ identity_of "alice" (with_policy Decision.challenge))
            × (ch.methods ≡ challenge_methods none)))
access-challenged_example =
    access-challenged handler moment request (with_policy Decision.challenge)
      (decision_of (policy Decision.challenge)) (decided Decision.challenge) challenged
      after_challenge (from_parts _ _ _ answered_challenge refl)

access-audited_example :
    (before : List AuditEvent) × (event : AuditEvent) × (after.audit_events ≡ before ++ event ∷ [])
    × (event.decision ≡ some response.decision)
    × (event.risk_score ≡ response.risk_score)
    × (event.reasons ≡ response.reasons)
    × (after.audit_last_hash ≡ event.hash)
access-audited_example =
    access-audited handler moment request (with_policy Decision.allow)
      (decision_of (policy Decision.allow)) (decided Decision.allow) response after handled

evaluate-strictest_example :
    (d : PolicyDecision) × (evaluate engine request store ≡ (ok d, store))
    × (((p : Policy) × Applies engine request store p
          × (d ≡ decision_of p)
          × ((q : Policy) → Applies engine request store q → order p.effect ≤ order q.effect))
        ⊎ (((q : Policy) → Applies engine request store q → ⊥) × (d ≡ default_decision "LOW")))
evaluate-strictest_example = evaluate-strictest engine by_priority by_strictness request store

applies : (d : Decision) → Applies engine request (with_policy d) (policy d)
unfolding Table.values
applies d = (inl refl, refl, matches_ntlm d)

only : (d : Decision) (q : Policy) → Applies engine request (with_policy d) q → q ≡ policy d
unfolding Table.values
only d q (inl e, _, _) = sym e
only d q (inr i, _, _) = absurd i

evaluate-deny_wins_example :
    (d : PolicyDecision) × (evaluate engine request (with_policy Decision.deny)
      ≡ (ok d, with_policy Decision.deny))
    × (d.effect ≡ Decision.deny)
evaluate-deny_wins_example =
    evaluate-deny_wins engine by_priority by_strictness request (with_policy Decision.deny)
      (policy Decision.deny) (applies Decision.deny) refl
      (λ q a h. ap (λ x. x.effect) (only Decision.deny q a))

nobody : (q : Policy) → Applies engine request store q → ⊥
unfolding Table.values
nobody q (i, _, _) = i

evaluate-no_policy_example :
    (d : PolicyDecision) × (evaluate engine request store ≡ (ok d, store))
    × ((IsLow (codes "LOW") → d.effect ≡ Decision.allow)
        × (¬ IsLow (codes "LOW") → d.effect ≡ Decision.deny))
evaluate-no_policy_example =
    evaluate-no_policy engine by_priority by_strictness request store nobody

evaluate-order_free_example :
    (d : PolicyDecision) × (d' : PolicyDecision) × (evaluate engine request
        (with_policy Decision.deny)
      ≡ (ok d, with_policy Decision.deny))
    × (evaluate engine request (with_policy Decision.deny) ≡ (ok d', with_policy Decision.deny))
    × (order d.effect ≡ order d'.effect)
evaluate-order_free_example =
    evaluate-order_free engine engine request (with_policy Decision.deny)
      (with_policy Decision.deny) by_priority by_strictness by_priority by_strictness
      (λ p. (λ a. a, λ a. a))

evaluate_conditions-fuel_example :
    (evaluate_conditions engine.go 2 condition (request_to_map request)
      ≡ evaluate_conditions engine.go 5 condition (request_to_map request))
    × (evaluate_conditions engine.go 2 condition (request_to_map request) ≢ err nested_too_deep)
unfolding size
evaluate_conditions-fuel_example =
    evaluate_conditions-fuel engine.go 2 5 condition (request_to_map request) (omega arith)
      (omega arith)

-- The request over a weaker protocol, for a resource that is more sensitive, without a recent factor.
abbrev riskier : AccessRequest
riskier = record request {
  context = record request.context { mfa_recent = false };
  protocol = record request.protocol { name = "ldap_simple_bind_cleartext" };
  resource = record request.resource { sensitivity = "critical" };
}

score_mono_example :
    ((score default_thresholds request).score ≤ (score default_thresholds riskier).score)
    × (severity (score default_thresholds request).level
        ≤ severity (score default_thresholds riskier).level)
score_mono_example =
    score_mono request riskier
      (record {
        privileged = λ h. h;
        sensitivity = omega arith;
        mfa = λ h. cc;
        far = λ h. h;
        protocol = omega arith;
        service = λ h. h;
        deviation = λ h. h;
        stale = λ h. h;
        password = λ h. h;
        spn = λ h. h;
        old_privileged = λ h. h;
        managed = λ h. h;
        compliant = λ h. h;
        reputation = omega arith;
      })
      default_thresholds
