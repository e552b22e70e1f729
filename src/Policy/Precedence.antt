-- ===== src/Policy/Precedence.antt =====
-- Which decision the engine comes to: core/internal/policy/engine.go.
use mathlib.Core.Path.{subst}
use oiaf.Base.{
  codes, bytes_eq→eq, Bool-cases, refl, ◌↔◌, ◌≤◌, true, String, ◌≡◌, refl, ap, sym, ◌∙◌, ◌⊎◌, inl,
  inr, List, [], ◌∷◌, arith, In, In-filter_by, In-filter_by_of, map, filter_by, Bool-cases,
}
use oiaf.Base.Action.{ok}
use oiaf.Base.Table
use oiaf.Types.Enums.{Decision}
use oiaf.Types.Access.{AccessRequest, PolicyDecision}
use oiaf.Types.Entities.{Policy}
use oiaf.Storage.State.{Store}
use oiaf.Policy.{
  EngineLib, matches, decision_of, order, is_higher, is_stricter, is_sensitivity, default_decision,
  first_or, conclude, evaluate,
}
use oiaf.Policy.Sensitivity.{IsLow, IsLow-is_sensitivity, is_sensitivity-IsLow}
use oiaf.Policy.Request.{request_to_map}
use oiaf.Policy.Sorting.{Sorted, Sorts}

-- An enabled policy of the store whose conditions hold of the request.
abbrev pub Applies : EngineLib → AccessRequest → Store → Policy → Type 0
Applies lib req s p =
    In p (Table.values s.policies)
    × (p.enabled ≡ true)
    × (matches lib.go (request_to_map req) p ≡ true)

In-map_of : (p : Policy) (ps : List Policy) → In p ps → In (decision_of p) (map decision_of ps)
In-map_of p [] i = absurd i
In-map_of p (q ∷ ps) (inl e) = inl (ap decision_of e)
In-map_of p (q ∷ ps) (inr i) = inr (In-map_of p ps i)

In-map :
    (d : PolicyDecision) (ps : List Policy)
    → In d (map decision_of ps)
    → (p : Policy) × In p ps × (d ≡ decision_of p)
In-map d [] i = absurd i
In-map d (q ∷ ps) (inl e) = (q, inl refl, sym e)
In-map d (q ∷ ps) (inr i) = let (p, j, e) = In-map d ps i in (p, inr j, e)

-- The first of a sorted list is as strict as any.
first-strictest :
    (d x : PolicyDecision) (xs : List PolicyDecision)
    → Sorted is_stricter xs
    → In x xs
    → In (first_or d xs) xs × (order (first_or d xs).effect ≤ order x.effect)
first-strictest d x [] h i = absurd i
first-strictest d x (y ∷ r) (h, t) (inl e) = (inl refl, rw e (omega arith))
first-strictest d x (y ∷ r) (h, t) (inr i) = let before = h x i in (inl refl, ground arith)

conclude-cases :
    (lib : EngineLib) (sens : String) (ds : List PolicyDecision)
    → Sorts is_stricter lib.sort_decisions
    → ((ds ≡ []) × (conclude lib sens ds ≡ default_decision sens))
      ⊎ (In (conclude lib sens ds) ds
          × ((x : PolicyDecision) → In x ds → order (conclude lib sens ds).effect ≤ order x.effect))
unfolding conclude
conclude-cases lib sens [] h = inl (refl, refl)
conclude-cases lib sens (d ∷ r) h =
    let sorted = h.sorted (d ∷ r) in
    inr (
      h.adds_none _ (d ∷ r) (first-strictest d d _ sorted (h.keeps d (d ∷ r) (inl refl))).0,
      λ x i. (first-strictest d x _ sorted (h.keeps x (d ∷ r) i)).1,
    )

one_word :
    (a b s : String) → is_sensitivity a s ≡ true → is_sensitivity b s ≡ true → codes a ≡ codes b
unfolding is_sensitivity
one_word a b s h k = sym (bytes_eq→eq _ (codes a) h) ∙ bytes_eq→eq _ (codes b) k

low-allow :
    (s : String) → is_sensitivity "low" s ≡ true → (default_decision s).effect ≡ Decision.allow
unfolding default_decision
low-allow s h = elim (Bool-cases (is_sensitivity "high" s)) [
  | inl p ↦ cc (one_word "low" "high" s h p)
  | inr p ↦ elim (Bool-cases (is_sensitivity "critical" s)) [
    | inl q ↦ cc (one_word "low" "critical" s h q)
    | inr q ↦ rw (h, p, q) refl
  ]
]

other-deny : (s : String) → ¬ IsLow (codes s) → (default_decision s).effect ≡ Decision.deny
unfolding default_decision
other-deny s n = elim (Bool-cases (is_sensitivity "low" s)) [
  | inl p ↦ absurd (n (is_sensitivity-IsLow s p))
  | inr p ↦ ground (arith, p)
]

-- The enabled policies that match, in the engine's order.
abbrev matching : EngineLib → AccessRequest → Store → List Policy
matching lib req s =
    filter_by (matches lib.go (request_to_map req))
      (lib.sort_policies is_higher (filter_by (λ p. p.enabled) (Table.values s.policies)))

module _ (lib : EngineLib) (hp : Sorts is_higher lib.sort_policies)
    (hd : Sorts is_stricter lib.sort_decisions) (req : AccessRequest) (s : Store) where
  Applies-matching : (p : Policy) → In p (matching lib req s) → Applies lib req s p
  Applies-matching p i =
      let (j, m) = In-filter_by (matches lib.go (request_to_map req)) p _ i in
      let (k, e) = In-filter_by (λ q. q.enabled) p _ (hp.adds_none p _ j) in (k, e, m)

  matching-Applies : (p : Policy) → Applies lib req s p → In p (matching lib req s)
  matching-Applies p (i, e, m) =
      In-filter_by_of (matches lib.go (request_to_map req)) p _
        (hp.keeps p _ (In-filter_by_of (λ q. q.enabled) p _ i e)) m

  -- `Evaluate` always gives a decision and changes nothing. It decides by an enabled policy whose
  -- conditions hold and than which no other such policy ranks before (deny, then challenge, alert,
  -- allow; an unknown effect with deny), and by the sensitivity of the resource alone if there is
  -- no such policy. The conditions on the parameters are what `sort.Slice` promises.
  pub evaluate-strictest :
      (d : PolicyDecision) × (evaluate lib req s ≡ (ok d, s))
      × (((p : Policy) × Applies lib req s p
            × (d ≡ decision_of p)
            × ((q : Policy) → Applies lib req s q → order p.effect ≤ order q.effect))
          ⊎ (((q : Policy) → Applies lib req s q → ⊥)
              × (d ≡ default_decision req.resource.sensitivity)))
  unfolding evaluate
  evaluate-strictest = (
    conclude lib req.resource.sensitivity (map decision_of (matching lib req s)),
    refl,
    elim (conclude-cases lib req.resource.sensitivity (map decision_of (matching lib req s)) hd) [
      | inl (empty, e) ↦ inr (
        λ q a.
            subst (In (decision_of q)) empty
              (In-map_of q (matching lib req s) (matching-Applies q a)),
        e,
      )
      | inr (i, least) ↦
          let (p, j, e) = In-map _ (matching lib req s) i in
          inl (
            p,
            Applies-matching p j,
            e,
            λ q a.
                subst (λ d. order d.effect ≤ order q.effect) e
                  (least (decision_of q) (In-map_of q (matching lib req s) (matching-Applies q a))),
          )
    ],
  )

  -- Where the store has no policy that applies with an unknown effect, one applying policy that
  -- denies is enough for a denial.
  pub evaluate-deny_wins :
      (p : Policy)
      → Applies lib req s p
      → p.effect ≡ Decision.deny
      → ((q : Policy) → Applies lib req s q → order q.effect ≡ 0 → q.effect ≡ Decision.deny)
      → (d : PolicyDecision) × (evaluate lib req s ≡ (ok d, s)) × (d.effect ≡ Decision.deny)
  unfolding order
  evaluate-deny_wins p a deny known =
      let (d, e, w) = evaluate-strictest in
      (
        d,
        e,
        elim w [
          | inr (nobody, _) ↦ absurd (nobody p a)
          | inl (q, b, same, least) ↦
              ap (λ x. x.effect) same
              ∙ known q b (omega (arith, subst (λ x. order q.effect ≤ order x) deny (least p a)))
        ],
      )

  -- Where no policy applies, the request is allowed exactly if the resource's sensitivity is the word
  -- "low", each letter small or capital, and denied otherwise.
  pub evaluate-no_policy :
      ((q : Policy) → Applies lib req s q → ⊥)
      → (d : PolicyDecision) × (evaluate lib req s ≡ (ok d, s))
        × ((IsLow (codes req.resource.sensitivity) → d.effect ≡ Decision.allow)
            × (¬ IsLow (codes req.resource.sensitivity) → d.effect ≡ Decision.deny))
  unfolding default_decision
  evaluate-no_policy none_applies =
      let (d, e, w) = evaluate-strictest in
      (
        d,
        e,
        elim w [
          | inl (q, b, same, least) ↦ absurd (none_applies q b)
          | inr (nobody, same) ↦ (
            λ h.
                ap (λ x. x.effect) same
                ∙ low-allow req.resource.sensitivity
                    (IsLow-is_sensitivity req.resource.sensitivity h),
            λ h. ap (λ x. x.effect) same ∙ other-deny req.resource.sensitivity h,
          )
        ],
      )

-- Two stores in which the same policies apply to a request give decisions of the same rank, in
-- whatever order the store lists its policies and the sorting leaves the ties.
pub evaluate-order_free :
    (lib lib' : EngineLib) (req : AccessRequest) (s t : Store)
    → Sorts is_higher lib.sort_policies
    → Sorts is_stricter lib.sort_decisions
    → Sorts is_higher lib'.sort_policies
    → Sorts is_stricter lib'.sort_decisions
    → ((p : Policy) → Applies lib req s p ↔ Applies lib' req t p)
    → (d : PolicyDecision) × (d' : PolicyDecision) × (evaluate lib req s ≡ (ok d, s))
      × (evaluate lib' req t ≡ (ok d', t))
      × (order d.effect ≡ order d'.effect)
evaluate-order_free lib lib' req s t hp hd hp' hd' same =
    let (d, e, w) = evaluate-strictest lib hp hd req s in
    let (d', e', w') = evaluate-strictest lib' hp' hd' req t in
    (
      d,
      d',
      e,
      e',
      elim w [
        | inl (p, a, r, least) ↦ elim w' [
          | inl (p', a', r', least') ↦
              let le = least p' ((same p').1 a') in
              let ge = least' p ((same p).0 a) in rw (r, r') (omega arith)
          | inr (nobody, r') ↦ absurd (nobody p ((same p).0 a))
        ]
        | inr (nobody, r) ↦ elim w' [
          | inl (p', a', r', least') ↦ absurd (nobody p' ((same p').1 a'))
          | inr (nobody', r') ↦ rw (r, r') refl
        ]
      ],
    )
