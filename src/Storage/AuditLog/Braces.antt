-- ===== src/Storage/AuditLog/Braces.antt =====
-- Lists of texts turned around, and texts around their first brace: the lemmas that the hash chain of
-- core/internal/storage/memory.go needs.
use oiaf.Base.{ℕ, ◌≡◌, ◌≢◌, refl, ap, sym, ◌∙◌, ◌⊎◌, inl, inr, List, [], ◌∷◌, ◌++◌, In}
use mathlib.Core.List.{append-nil}
use mathlib.Core.Path.{subst}
use oiaf.Storage.AuditLog.{Bytes}

abbrev pub brace : ℕ
brace = 123

abbrev pub NoBrace : Bytes → Type 0
NoBrace [] = Unit
NoBrace (b ∷ r) = (b ≢ brace) × NoBrace r

unfoldable pub rev_onto : List Bytes → List Bytes → List Bytes
rev_onto [] older = older
rev_onto (c ∷ r) older = rev_onto r (c ∷ older)

rev_onto-rev_onto : (xs ys zs : List Bytes) → rev_onto (rev_onto xs ys) zs ≡ rev_onto ys (xs ++ zs)
unfolding rev_onto
rev_onto-rev_onto [] ys zs = refl
rev_onto-rev_onto (x ∷ xs) ys zs = rev_onto-rev_onto xs (x ∷ ys) zs

pub rev_onto_injective : (cs ds : List Bytes) → rev_onto cs [] ≡ rev_onto ds [] → cs ≡ ds
unfolding rev_onto
rev_onto_injective cs ds e =
    sym (append-nil cs)
    ∙ sym (rev_onto-rev_onto cs [] [])
    ∙ ap (λ l. rev_onto l []) e
    ∙ rev_onto-rev_onto ds [] []
    ∙ append-nil ds

pub In-rev_onto :
    (t : Bytes) (cs older : List Bytes) → In t (rev_onto cs older) → In t cs ⊎ In t older
unfolding rev_onto
In-rev_onto t [] older i = inr i
In-rev_onto t (x ∷ cs) older i = elim (In-rev_onto t cs (x ∷ older) i) [
  | inl j ↦ inl (inr j)
  | inr j ↦ elim j [ inl e ↦ inl (inl e) | inr k ↦ inr k ]
]

-- Texts around the first brace.
split_at_brace :
    (p q : Bytes) (x y : Bytes)
    → NoBrace p
    → NoBrace q
    → p ++ brace ∷ x ≡ q ++ brace ∷ y
    → (p ≡ q) × (x ≡ y)
split_at_brace [] [] x y np nq e = (refl, cc)
split_at_brace [] (b ∷ q) x y np nq e = absurd (nq.0 (cc))
split_at_brace (a ∷ p) [] x y np nq e = absurd (np.0 (cc))
split_at_brace (a ∷ p) (b ∷ q) x y np nq e =
    let (same, rest) = split_at_brace p q x y np.1 nq.1 (cc) in (cc, rest)

-- A text that is hashed for an event: JSON of a struct, or nothing.
abbrev pub IsText : Bytes → Type 0
IsText t = (t ≡ []) ⊎ ((r : Bytes) × (t ≡ brace ∷ r))

abbrev pub AreTexts : List Bytes → Type 0
AreTexts ts = (t : Bytes) → In t ts → IsText t

brace_within : (q y : Bytes) → NoBrace (q ++ brace ∷ y) → ⊥
brace_within [] y n = n.0 refl
brace_within (a ∷ q) y n = brace_within q y n.1

pub split_texts :
    (p q t u : Bytes)
    → NoBrace p
    → NoBrace q
    → IsText t
    → IsText u
    → p ++ t ≡ q ++ u
    → (p ≡ q) × (t ≡ u)
split_texts p q t u np nq (inl a) (inl b) e = (
  sym (append-nil p) ∙ ap (λ l. p ++ l) (sym a) ∙ e ∙ ap (λ l. q ++ l) b ∙ append-nil q,
  a ∙ sym b,
)
split_texts p q t u np nq (inl a) (inr (y, b)) e =
    let whole : p ≡ q ++ brace ∷ y =
      sym (append-nil p) ∙ ap (λ l. p ++ l) (sym a) ∙ e ∙ ap (λ l. q ++ l) b in
    absurd (brace_within q y (subst NoBrace whole np))
split_texts p q t u np nq (inr (x, a)) (inl b) e =
    let whole : q ≡ p ++ brace ∷ x =
      sym (append-nil q) ∙ ap (λ l. q ++ l) (sym b) ∙ sym e ∙ ap (λ l. p ++ l) a in
    absurd (brace_within p x (subst NoBrace whole nq))
split_texts p q t u np nq (inr (x, a)) (inr (y, b)) e =
    let (same, rest) =
      split_at_brace p q x y np nq (ap (λ l. p ++ l) (sym a) ∙ e ∙ ap (λ l. q ++ l) b) in
    (same, a ∙ ap (λ l. brace ∷ l) rest ∙ sym b)
