-- ===== src/Api/Settling.antt =====
-- What the override and the `switch` of `handleAccessEvaluate` make of a decision:
-- core/internal/api/api.go.
use oiaf.Base.{
  true, String, ◌==◌, ◌≡◌, ◌≢◌, refl, ap, sym, ◌∙◌, ◌⊎◌, inl, inr, Option, none, some, List, ◌++◌,
  arith, Bool-cases, str_eq_self,
}
use oiaf.Base.Action.{from_parts, ok_pair, Result, Result-cases, ok}
use oiaf.Types.Enums.{Decision, is_deny}
use oiaf.Types.Access.{AccessRequest, ChallengeSpec, PolicyDecision}
use oiaf.Types.Entities.{Challenge}
use oiaf.Storage.State.{Store}
use oiaf.Risk
use oiaf.Challenge as Orchestrator
use oiaf.Challenge.{push_number}
use oiaf.Api.{
  Handler, Moment, HttpError, Outcome, Settled, override, settle, identity_of, challenge_methods,
}

-- The risk of a request, the override of the policy's decision, and the switch.
abbrev pub risk_level : Handler → AccessRequest → String
risk_level h req = (Risk.score h.thresholds req).level

abbrev pub overridden : Handler → AccessRequest → PolicyDecision → Outcome
overridden h req pd =
    override (risk_level h req) pd.effect (pd.reasons ++ (Risk.score h.thresholds req).reasons)

abbrev pub switched :
    Handler → Moment → AccessRequest → PolicyDecision → Store → Result HttpError Settled × Store
switched h now req pd s =
    settle h now req pd.challenge (overridden h req pd).decision (overridden h req pd).reasons s

pub override-deny :
    (l : String) (d : Decision) (rs : List String)
    → (l ≡ "critical") ⊎ (d ≡ Decision.deny)
    → (override l d rs).decision ≡ Decision.deny
unfolding override
override-deny l d rs (inl c) = rw c refl
override-deny l d rs (inr c) = elim (Bool-cases (l == "critical")) [
  | inl p ↦ rw p refl
  | inr p ↦ elim (Bool-cases (l == "very_high")) [
    | inl q ↦ rw (c, p, q) refl
    | inr q ↦ rw (c, p, q) refl
  ]
]

is_deny-eq : (d : Decision) → is_deny d ≡ true → d ≡ Decision.deny
is_deny-eq d h = ground arith

-- The decision that the override leaves is allowed only by the policy, below those two levels.
pub override-allow :
    (l : String) (d : Decision) (rs : List String)
    → (override l d rs).decision ≢ Decision.deny
    → (override l d rs).decision ≢ Decision.challenge
    → ((override l d rs).decision ≡ d) × (l ≢ "critical") × (l ≢ "very_high")
unfolding override
override-allow l d rs no_deny no_challenge = elim (Bool-cases (l == "critical")) [
  | inl p ↦ absurd (no_deny (rw p refl))
  | inr p ↦ elim (Bool-cases (l == "very_high")) [
    | inr q ↦ (
      rw (p, q) refl,
      λ c. cc (ap (λ x. x == "critical") c, p, str_eq_self "critical"),
      λ c. cc (ap (λ x. x == "very_high") c, q, str_eq_self "very_high"),
    )
    | inl q ↦ elim (Bool-cases (is_deny d)) [
      | inl r ↦ absurd (no_deny (rw (p, q, r) (is_deny-eq d r)))
      | inr r ↦ absurd (no_challenge (rw (p, q, r) refl))
    ]
  ]
]

pub settle-deny :
    (h : Handler) (now : Moment) (req : AccessRequest) (spec : Option ChallengeSpec) (d : Decision)
    (rs : List String) (s : Store)
    → d ≡ Decision.deny
    → settle h now req spec d rs s ≡ (
      ok (record { outcome = record { decision = Decision.deny; reasons = rs }; challenge = none }),
      s,
    )
unfolding settle
settle-deny h now req spec d rs s e = rw e refl

-- The decision in the response.
abbrev pub softened : Decision → Decision
softened Decision.alert = Decision.allow
softened d = d

not_special :
    (d e : Decision) (rs : List String) (s s' : Store) (st : Settled)
    → e ≡ softened d
    → e ≢ Decision.challenge
    → e ≢ Decision.alert
    → ◌≡◌ {A = Result HttpError Settled × Store}
        (ok (record { outcome = record { decision = e; reasons = rs }; challenge = none }), s)
        (ok st, s')
    → (st.outcome.decision ≡ softened d)
      × (st.outcome.decision ≢ Decision.challenge)
      × (st.outcome.decision ≢ Decision.alert)
      × (st.challenge ≡ none)
      × (s' ≡ s)
not_special d e rs s s' st same c a h =
    let (q, k) = ok_pair _ st s s' h in
    let dec : e ≡ st.outcome.decision = ap (λ x. x.outcome.decision) q in
    (sym dec ∙ same, λ x. c (dec ∙ x), λ x. a (dec ∙ x), sym (ap (λ x. x.challenge) q), sym k)

pub softened-allow :
    (d : Decision) → softened d ≡ Decision.allow → (d ≡ Decision.allow) ⊎ (d ≡ Decision.alert)
softened-allow Decision.allow h = inl refl
softened-allow Decision.alert h = inr refl
softened-allow Decision.deny h = cc h
softened-allow Decision.challenge h = cc h
softened-allow (Decision.other x) h = cc h

pub settle-outcome :
    (h : Handler) (now : Moment) (req : AccessRequest) (spec : Option ChallengeSpec) (d : Decision)
    (rs : List String) (s s' : Store) (st : Settled)
    → settle h now req spec d rs s ≡ (ok st, s')
    → ((d ≡ Decision.challenge)
        × (st.outcome.decision ≡ Decision.challenge)
        × ((ch : Challenge) × (Orchestrator.create h.service now.fresh
                (identity_of req.identity.username s)
                now.request_id
                (challenge_methods spec)
                s
              ≡ (ok ch, s'))
            × (st.challenge
                ≡ some (record { id = ch.id; methods = ch.methods; expires_at = ch.expires_at }))))
      ⊎ ((st.outcome.decision ≡ softened d)
          × (st.outcome.decision ≢ Decision.challenge)
          × (st.outcome.decision ≢ Decision.alert)
          × (st.challenge ≡ none)
          × (s' ≡ s))
unfolding settle
settle-outcome h now req spec Decision.challenge rs s s' st e =
    elim (Result-cases
      (Orchestrator.create h.service now.fresh (identity_of req.identity.username s) now.request_id
        (challenge_methods spec) s).0) [
          | inl (ch, p) ↦
              let q = rw p at e in
              let (a, b) = ok_pair _ st _ s' q in
              inl (
                refl,
                sym (ap (λ x. x.outcome.decision) a),
                (ch, from_parts _ _ _ p b, sym (ap (λ x. x.challenge) a)),
              )
          | inr (x, p) ↦ cc (rw p at e)
        ]
settle-outcome h now req spec Decision.allow rs s s' st e =
    inr (not_special Decision.allow Decision.allow _ s s' st refl (λ x. cc x) (λ x. cc x) e)
settle-outcome h now req spec Decision.deny rs s s' st e =
    inr (not_special Decision.deny Decision.deny _ s s' st refl (λ x. cc x) (λ x. cc x) e)
settle-outcome h now req spec Decision.alert rs s s' st e =
    inr (not_special Decision.alert Decision.allow _ s s' st refl (λ x. cc x) (λ x. cc x) e)
settle-outcome h now req spec (Decision.other x) rs s s' st e =
    inr (not_special (Decision.other x) (Decision.other x) _ s s' st refl (λ x. cc x) (λ x. cc x) e)
