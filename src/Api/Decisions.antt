-- ===== src/Api/Decisions.antt =====
-- What an access decision may be, given the policy's decision and the level of risk:
-- core/internal/api/api.go.
use oiaf.Base.{◌≡◌, ◌≢◌, refl, ap, sym, ◌∙◌, ◌⊎◌, inl, inr, none, some, List, [], ◌∷◌, ◌++◌}
use oiaf.Base.Table
use oiaf.Base.Table.{get-put_self}
use oiaf.Base.Action.{ok_pair, Result-cases, ok, err}
use oiaf.Types.Enums.{Decision, ChallengeStatus}
use oiaf.Types.Access.{AccessRequest, AccessDecision, PolicyDecision}
use oiaf.Types.Entities.{Challenge, AuditEvent}
use oiaf.Storage.State.{Store}
use oiaf.Risk
use oiaf.Policy
use oiaf.Audit
use oiaf.Audit.{new_event}
use oiaf.Audit.Agree.{emit-stored}
use oiaf.Challenge.Creation.{create-new}
use oiaf.Api.{
  Handler, Moment, HttpError, Settled, respond, identity_of, challenge_methods, access_report,
  handle_access_evaluate,
}
use oiaf.Api.Settling.{
  risk_level, overridden, switched, override-deny, override-allow, settle-deny, softened,
  softened-allow, settle-outcome,
}

module _ (h : Handler) (now : Moment) (req : AccessRequest) (s : Store) (pd : PolicyDecision)
    (e : Policy.evaluate h.engine req s ≡ (ok pd, s)) where
  handle-settled :
      (st : Settled) (s' : Store)
      → switched h now req pd s ≡ (ok st, s')
      → handle_access_evaluate h now (some req) s
        ≡ respond h now req (Risk.score h.thresholds req).score st s'
  unfolding handle_access_evaluate
  handle-settled st s' p = rw (e, p) refl

  handle-refused :
      (x : HttpError)
      → (switched h now req pd s).0 ≡ err x
      → (handle_access_evaluate h now (some req) s).0 ≡ err x
  unfolding handle_access_evaluate
  handle-refused x p = rw (e, p) refl

  -- A critical risk and a policy that denies are final: the request is denied, without a
  -- challenge.
  pub access-denied :
      (risk_level h req ≡ "critical") ⊎ (pd.effect ≡ Decision.deny)
      → (d : AccessDecision) × ((handle_access_evaluate h now (some req) s).0 ≡ ok d)
        × (d.decision ≡ Decision.deny)
        × (d.challenge ≡ none)
  unfolding respond
  access-denied c =
      let st =
        settle-deny h now req pd.challenge _ (overridden h req pd).reasons s
          (override-deny (risk_level h req) pd.effect _ c) in
      (_, ap (λ x. x.0) (handle-settled _ s st), refl, refl)

  -- The response of a handled request is made from what the switch leaves.
  responded :
      (d : AccessDecision) (t : Store)
      → handle_access_evaluate h now (some req) s ≡ (ok d, t)
      → (st : Settled) × (s' : Store) × (switched h now req pd s ≡ (ok st, s'))
        × (d ≡ record {
          request_id = now.request_id;
          decision = st.outcome.decision;
          risk_score = (Risk.score h.thresholds req).score;
          reasons = st.outcome.reasons;
          challenge = st.challenge;
        })
        × (t
            ≡ (Audit.emit h.service.hasher now.stamp
                (access_report req st.outcome (Risk.score h.thresholds req).score)
                s').1)
  unfolding respond
  responded d t p = elim (Result-cases (switched h now req pd s).0) [
    | inr (x, q) ↦ cc (handle-refused x q, p)
    | inl (st, q) ↦
        let same : switched h now req pd s ≡ (ok st, (switched h now req pd s).1) =
          ap (λ r. (r, (switched h now req pd s).1)) q in
        let e = sym (handle-settled st (switched h now req pd s).1 same) ∙ p in
        (
          st,
          (switched h now req pd s).1,
          same,
          sym (ok_pair _ d _ t (unfold respond in e)).0,
          sym (ok_pair _ d _ t (unfold respond in e)).1,
        )
  ]

  allowed :
      softened (overridden h req pd).decision ≡ Decision.allow
      → ((pd.effect ≡ Decision.allow) ⊎ (pd.effect ≡ Decision.alert))
        × (risk_level h req ≢ "critical")
        × (risk_level h req ≢ "very_high")
  allowed x =
      let d = (overridden h req pd).decision in
      let (same, no_critical, no_high) =
        override-allow (risk_level h req) pd.effect
          (pd.reasons ++ (Risk.score h.thresholds req).reasons) (λ y. cc) (λ y. cc) in
      (
        elim (softened-allow d x) [ inl y ↦ inl (sym same ∙ y) | inr y ↦ inr (sym same ∙ y) ],
        no_critical,
        no_high,
      )

  -- A request is allowed only if the policy's decision is to allow or to raise an alert and the
  -- risk is neither critical nor very high. The response is never `alert`.
  pub access-allowed :
      (d : AccessDecision) (t : Store)
      → handle_access_evaluate h now (some req) s ≡ (ok d, t)
      → (d.decision ≢ Decision.alert)
        × (d.decision ≡ Decision.allow
            → ((pd.effect ≡ Decision.allow) ⊎ (pd.effect ≡ Decision.alert))
              × (risk_level h req ≢ "critical")
              × (risk_level h req ≢ "very_high"))
  access-allowed d t p =
      let (st, s', q, r, _) = responded d t p in
      let same = ap (λ x. x.decision) r in
      elim (settle-outcome h now req pd.challenge _ _ s s' st q) [
        | inl (_, c, _) ↦ (λ x. cc (c, same, x), λ x. cc (c, same, x))
        | inr (o, _, no_alert, _, _) ↦
            (λ x. no_alert (sym same ∙ x), λ x. allowed (sym o ∙ (sym same ∙ x)))
      ]

  -- The response carries a challenge exactly if the decision is `challenge`, and then the store
  -- holds under its identifier a challenge that `Create` made for the identity of that name.
  pub access-challenged :
      (d : AccessDecision) (t : Store)
      → handle_access_evaluate h now (some req) s ≡ (ok d, t)
      → ((d.decision ≢ Decision.challenge) × (d.challenge ≡ none))
        ⊎ ((d.decision ≡ Decision.challenge)
            × ((ch : Challenge) × (d.challenge
                  ≡ some (record { id = ch.id; methods = ch.methods; expires_at = ch.expires_at }))
                × (Table.get t.challenges now.fresh.id ≡ some ch)
                × (ch.status ≡ ChallengeStatus.pending)
                × (ch.identity_id ≡ identity_of req.identity.username s)
                × (ch.methods ≡ challenge_methods pd.challenge)))
  access-challenged d t p =
      let (st, s', q, r, u) = responded d t p in
      let same = ap (λ x. x.decision) r in
      elim (settle-outcome h now req pd.challenge _ _ s s' st q) [
        | inr (o, other, _, empty, _) ↦
            inl (λ x. other (sym same ∙ x), ap (λ x. x.challenge) r ∙ empty)
        | inl (_, c, (ch, made, i)) ↦
            let (n, _, new, stored) = create-new h.service now.fresh _ _ _ s s' ch made in
            inr (
              same ∙ c,
              (
                ch,
                ap (λ x. x.challenge) r ∙ i,
                rw
                    (
                      u,
                      emit-stored h.service.hasher now.stamp
                          (access_report req st.outcome (Risk.score h.thresholds req).score) s',
                      stored,
                    )
                    (get-put_self s.challenges now.fresh.id ch),
                ap (λ x. x.status) new,
                ap (λ x. x.identity_id) new,
                ap (λ x. x.methods) new,
              ),
            )
      ]

  -- Every response that is a decision is on record: the last audit event of the store is the
  -- evaluation, with the decision, the score and the reasons of the response.
  pub access-audited :
      (d : AccessDecision) (t : Store)
      → handle_access_evaluate h now (some req) s ≡ (ok d, t)
      → (before : List AuditEvent) × (event : AuditEvent) × (t.audit_events ≡ before ++ event ∷ [])
        × (event.decision ≡ some d.decision)
        × (event.risk_score ≡ d.risk_score)
        × (event.reasons ≡ d.reasons)
        × (t.audit_last_hash ≡ event.hash)
  unfolding new_event access_report
  access-audited d t p =
      let (st, s', _, r, u) = responded d t p in
      let stored =
        u
        ∙ ap (λ x. x.1)
            (emit-stored h.service.hasher now.stamp
              (access_report req st.outcome (Risk.score h.thresholds req).score) s') in
      (
        s'.audit_events,
        new_event h.service.hasher now.stamp
            (access_report req st.outcome (Risk.score h.thresholds req).score) s'.audit_last_hash,
        ap (λ x. x.audit_events) stored,
        ap (λ x. some x.decision) (sym r),
        ap (λ x. x.risk_score) (sym r),
        ap (λ x. x.reasons) (sym r),
        ap (λ x. x.audit_last_hash) stored,
      )
