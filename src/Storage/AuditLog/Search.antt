-- ===== src/Storage/AuditLog/Search.antt =====
-- What `List` returns.
use mathlib.Core.Bool.{Bool, false≢true}
use oiaf.Types.Enums.{target_text}
use oiaf.Base.{
  le→ltb, ltb, ◌||◌, ◌&&◌, Option-cases, false, some, sym, ◌⊎◌, ◌≢◌, ◌==◌, str_eq→eq, str_eq_self,
  ℕ, zero, suc, ◌+◌, ◌<◌, ◌≤◌, ℤ, pos, negsuc, ltb_ℤ, true, false, not, String, ◌≡◌, refl, ap, ◌∙◌,
  inl, inr, Option, List, [], ◌∷◌, arith, take, filter_by, Bool-cases,
}
use oiaf.Base.Action.{ok}
use oiaf.Base.Selection.{IsSelection, filter_by-IsSelection}
use oiaf.Types.Entities.{Time, AuditEvent}
use oiaf.Storage.State.{Store}
use oiaf.Storage.AuditLog.{
  AuditFilter, differs, breaks_bound, event_decision, skipped, is_full, list_from, list,
}

-- A limit that is not positive is no limit.
abbrev pub within_limit : ℤ → List AuditEvent → List AuditEvent
within_limit (negsuc n) es = es
within_limit (pos zero) es = es
within_limit (pos (suc k)) es = take (suc k) es

-- The event has what the filter asks for: its texts where the filter's are not empty, at least its
-- score where that is positive, and a time that is not outside of the bounds that can be read.
pub record Passes (parse_time : String → Option Time) (f : AuditFilter) (e : AuditEvent)
    : Type 0 where
  pub type : (f.type ≡ "") ⊎ (e.type ≡ f.type)
  pub decision : (f.decision ≡ "") ⊎ (event_decision e.decision ≡ f.decision)
  pub identity : (f.identity_id ≡ "") ⊎ (e.actor.id ≡ f.identity_id)
  pub resource : (f.resource_type ≡ "") ⊎ (target_text e.target.type ≡ f.resource_type)
  pub risk : (m : ℕ) → f.risk_score_min ≡ pos m → m ≤ e.risk_score
  pub since : (t : Time) → f.since ≢ "" → parse_time f.since ≡ some t → t ≤ e.timestamp
  pub until : (t : Time) → f.until ≢ "" → parse_time f.until ≡ some t → e.timestamp ≤ t

not_differs :
    (wanted value : String) → differs wanted value ≡ false → (wanted ≡ "") ⊎ (value ≡ wanted)
not_differs wanted value h = elim (Bool-cases (wanted == "")) [
  | inl p ↦ inl (str_eq→eq wanted "" p)
  | inr p ↦ elim (Bool-cases (value == wanted)) [
    | inl q ↦ inr (str_eq→eq value wanted q)
    | inr q ↦ absurd (false≢true (sym (rw (p, q) at h)))
  ]
]

not_differs_of :
    (wanted value : String) → (wanted ≡ "") ⊎ (value ≡ wanted) → differs wanted value ≡ false
not_differs_of wanted value (inl e) = rw e refl
not_differs_of wanted value (inr e) = rw (e, str_eq_self) (ground arith)

not_broken :
    (parse_time : String → Option Time) (test : Time → Bool) (text : String) (t : Time)
    → breaks_bound parse_time test text ≡ false
    → text ≢ ""
    → parse_time text ≡ some t
    → test t ≡ false
not_broken parse_time test text t h n e = elim (Bool-cases (text == "")) [
  | inl p ↦ absurd (n (str_eq→eq text "" p))
  | inr p ↦ rw (p, e) at h
]

not_broken_of :
    (parse_time : String → Option Time) (test : Time → Bool) (text : String)
    → ((t : Time) → text ≢ "" → parse_time text ≡ some t → test t ≡ false)
    → breaks_bound parse_time test text ≡ false
not_broken_of parse_time test text h = elim (Bool-cases (text == "")) [
  | inl p ↦ rw p refl
  | inr p ↦ elim (Option-cases (parse_time text)) [
    | inl e ↦ rw (p, e) refl
    | inr (t, e) ↦ rw (p, e) (h t (λ q. false≢true (sym p ∙ rw q refl)) e)
  ]
]

high_enough :
    (least : ℤ) (n : ℕ)
    → (ltb_ℤ (pos 0) least && ltb_ℤ (pos n) least) ≡ false
    → (m : ℕ) → least ≡ pos m
    → m ≤ n
unfolding ltb_ℤ
high_enough (pos k) n h m e = let same : k ≡ m = cc e in ground (arith, h, same)
high_enough (negsuc k) n h m e = cc e

high_enough_of :
    (least : ℤ) (n : ℕ)
    → ((m : ℕ) → least ≡ pos m → m ≤ n)
    → (ltb_ℤ (pos 0) least && ltb_ℤ (pos n) least) ≡ false
unfolding ltb_ℤ
high_enough_of (pos k) n h = let b = h k refl in ground (arith, b)
high_enough_of (negsuc k) n h = refl

or_false : (x y : Bool) → (x || y) ≡ false → (x ≡ false) × (y ≡ false)
or_false x y h = ground arith

module _ (parse_time : String → Option Time) (f : AuditFilter) where
  abbrev pub wanted : List AuditEvent → List AuditEvent
  wanted = filter_by (λ e. not (skipped parse_time f e))

  list_from-unlimited :
      (taken : ℕ) (es : List AuditEvent)
      → ltb_ℤ (pos 0) f.limit ≡ false
      → list_from parse_time f taken es ≡ wanted es
  unfolding list_from filter_by is_full
  list_from-unlimited taken [] h = refl
  list_from-unlimited taken (e ∷ r) h =
      ground (arith, list_from-unlimited taken r h, list_from-unlimited (suc taken) r h)

  full : (n m : ℕ) → f.limit ≡ pos m → (0 < m) × (m ≤ n) → is_full f n ≡ true
  unfolding is_full ltb_ℤ
  full n m h b = rw h (ground arith)

  not_full : (n m : ℕ) → f.limit ≡ pos m → n < m → is_full f n ≡ false
  unfolding is_full ltb_ℤ
  not_full n m h b = rw h (ground arith)

  list_from-limited :
      (k taken : ℕ) (es : List AuditEvent)
      → f.limit ≡ pos (taken + suc k)
      → list_from parse_time f taken es ≡ take (suc k) (wanted es)
  unfolding list_from filter_by
  list_from-limited k taken [] h = refl
  list_from-limited zero taken (e ∷ r) h = elim (Bool-cases (skipped parse_time f e)) [
    | inl p ↦ rw p (list_from-limited zero taken r h)
    | inr p ↦ rw p (rw (full (suc taken) (taken + 1) h (omega arith)) refl)
  ]
  list_from-limited (suc k) taken (e ∷ r) h = elim (Bool-cases (skipped parse_time f e)) [
    | inl p ↦ rw p (list_from-limited (suc k) taken r h)
    | inr p ↦ rw p (
        rw (not_full (suc taken) _ h (omega arith))
          (ap (λ l. e ∷ l) (list_from-limited k (suc taken) r (h ∙ ap pos (omega arith)))))
  ]

module _ (parse_time : String → Option Time) (f : AuditFilter) (e : AuditEvent) where
  not_skipped-Passes : skipped parse_time f e ≡ false → Passes parse_time f e
  unfolding skipped
  not_skipped-Passes h =
      let (h1, u) = or_false _ _ h in
      let (h2, s) = or_false _ _ h1 in
      let (h3, r) = or_false _ _ h2 in
      let (h4, d) = or_false _ _ h3 in
      let (h5, c) = or_false _ _ h4 in
      let (a, b) = or_false _ _ h5 in
      record {
        type = not_differs f.type e.type a;
        decision = not_differs f.decision (event_decision e.decision) b;
        identity = not_differs f.identity_id e.actor.id c;
        resource = not_differs f.resource_type (target_text e.target.type) d;
        risk = high_enough f.risk_score_min e.risk_score r;
        since =
            λ t n p. ground (arith, not_broken parse_time (λ x. ltb e.timestamp x) f.since t s n p);
        until =
            λ t n p. ground (arith, not_broken parse_time (λ x. ltb x e.timestamp) f.until t u n p);
      }

  Passes-not_skipped : Passes parse_time f e → skipped parse_time f e ≡ false
  unfolding skipped
  Passes-not_skipped p =
      rw
        (
          not_differs_of f.type e.type p.type,
          not_differs_of f.decision (event_decision e.decision) p.decision,
          not_differs_of f.identity_id e.actor.id p.identity,
          not_differs_of f.resource_type (target_text e.target.type) p.resource,
          high_enough_of f.risk_score_min e.risk_score p.risk,
          not_broken_of parse_time (λ x. ltb e.timestamp x) f.since
              (λ t n q. le→ltb t e.timestamp (p.since t n q)),
          not_broken_of parse_time (λ x. ltb x e.timestamp) f.until
              (λ t n q. le→ltb e.timestamp t (p.until t n q)),
        )
        refl

wanted-IsSelection :
    (parse_time : String → Option Time) (f : AuditFilter) (es : List AuditEvent)
    → IsSelection (Passes parse_time f) (wanted parse_time f es) es
wanted-IsSelection parse_time f es =
    filter_by-IsSelection (Passes parse_time f) (λ e. not (skipped parse_time f e)) es
      (λ e h. not_skipped-Passes parse_time f e (ground (arith, h)))
      (λ e h p. false≢true (sym (Passes-not_skipped parse_time f e p) ∙ ground (arith, h)))

list-by_limit :
    (parse_time : String → Option Time) (f : AuditFilter) (s : Store)
    → (list parse_time f s).0 ≡ ok (within_limit f.limit (wanted parse_time f s.audit_events))
unfolding list
list-by_limit parse_time f s = ap ok (by_limit f.limit refl)
  where
    by_limit :
        (l : ℤ)
        → f.limit ≡ l
        → list_from parse_time f 0 s.audit_events
          ≡ within_limit l (wanted parse_time f s.audit_events)
    by_limit (negsuc n) h =
        list_from-unlimited parse_time f 0 s.audit_events (unfold ltb_ℤ in rw h refl)
    by_limit (pos zero) h =
        list_from-unlimited parse_time f 0 s.audit_events (unfold ltb_ℤ in rw h refl)
    by_limit (pos (suc k)) h =
        list_from-limited parse_time f k 0 s.audit_events (h ∙ ap pos (omega arith))

-- `List` takes from the log, in its order, exactly the events that have what the filter asks for,
-- and returns them all, or the first `limit` of them where the limit is positive.
pub list-wanted :
    (parse_time : String → Option Time) (f : AuditFilter) (s : Store)
    → (es : List AuditEvent) × IsSelection (Passes parse_time f) es s.audit_events
      × ((list parse_time f s).0 ≡ ok (within_limit f.limit es))
list-wanted parse_time f s = (
  wanted parse_time f s.audit_events,
  wanted-IsSelection parse_time f s.audit_events,
  list-by_limit parse_time f s,
)
