-- ===== src/Base/Lists.antt =====
-- Lists measured by native numbers, the tests over lists that the program writes as loops, and
-- a membership predicate by recursion, which case splits can take apart.
use Prim.Native.Nat.{ℕ, zero, suc, ◌+◌}
use mathlib.Core.Path.{◌≡◌, ap, refl}
use mathlib.Core.Logic.{◌≢◌, ◌⊎◌, inl, inr}
use mathlib.Core.Bool.{Bool, true, false}
use mathlib.Core.List.{List, [], ◌∷◌, ◌++◌}
use native.Mathlib.Omega.{arith}
use Prim.Native.Char.{code}
use Prim.Native.String.{String}
use oiaf.Base.Tests.{if◌then◌else◌, eqb, Bool-cases}

-- The code points of a text.
abbrev pub codes : String → List ℕ
codes String.[] = []
codes (String.◌∷◌ c s) = code c ∷ codes s

module _ {ℓ} {A : Type ℓ} where
  abbrev pub length : List A → ℕ
  length [] = 0
  length (x ∷ xs) = suc (length xs)

  abbrev pub is_empty : List A → Bool
  is_empty [] = true
  is_empty (x ∷ xs) = false

  pub length-append : (xs ys : List A) → length (xs ++ ys) ≡ length xs + length ys
  length-append [] ys = omega arith
  length-append (x ∷ xs) ys = omega (arith, length-append xs ys)

  abbrev pub take : ℕ → List A → List A
  take zero xs = []
  take (suc n) [] = []
  take (suc n) (x ∷ xs) = x ∷ take n xs

  -- `for _, v := range xs { if test(v) { out = append(out, v) } }`
  unfoldable pub filter_by : (A → Bool) → List A → List A
  filter_by test [] = []
  filter_by test (x ∷ xs) = let rest = filter_by test xs in if test x then x ∷ rest else rest

  -- `for _, v := range xs { if test(v) { return true } }; return false`
  unfoldable pub exists_in : (A → Bool) → List A → Bool
  exists_in test [] = false
  exists_in test (x ∷ xs) = let rest = exists_in test xs in if test x then true else rest

module _ {A : Type 0} where
  -- An element of a list, with the place where it stands.
  abbrev pub In : A → List A → Type 0
  In a [] = ⊥
  In a (x ∷ xs) = (x ≡ a) ⊎ In a xs

  -- The loop keeps exactly the elements that pass its test.
  pub In-filter_by :
      (test : A → Bool) (a : A) (xs : List A) → In a (filter_by test xs) → In a xs × (test a ≡ true)
  unfolding filter_by
  In-filter_by test a [] h = absurd h
  In-filter_by test a (x ∷ xs) h = ground (arith, In-filter_by test a xs)

  pub In-filter_by_of :
      (test : A → Bool) (a : A) (xs : List A) → In a xs → test a ≡ true → In a (filter_by test xs)
  unfolding filter_by
  In-filter_by_of test a [] h t = absurd h
  In-filter_by_of test a (x ∷ xs) h t = ground (arith, In-filter_by_of test a xs)

  pub exists_in_of :
      (test : A → Bool) (a : A) (xs : List A) → In a xs → test a ≡ true → exists_in test xs ≡ true
  unfolding exists_in
  exists_in_of test a [] h t = absurd h
  exists_in_of test a (x ∷ xs) h t = ground (arith, exists_in_of test a xs)

  pub exists_in-In :
      (test : A → Bool) (xs : List A)
      → exists_in test xs ≡ true
      → (a : A) × In a xs × (test a ≡ true)
  unfolding exists_in
  exists_in-In test [] h = cc
  exists_in-In test (x ∷ xs) h = elim (Bool-cases (test x)) [
    | inl p ↦ (x, inl refl, p)
    | inr p ↦ let (a, i, t) = exists_in-In test xs (ground arith) in (a, inr i, t)
  ]

  pub In-append_left : (a : A) (xs ys : List A) → In a xs → In a (xs ++ ys)
  In-append_left a [] ys i = absurd i
  In-append_left a (x ∷ xs) ys (inl e) = inl e
  In-append_left a (x ∷ xs) ys (inr i) = inr (In-append_left a xs ys i)

  pub In-append_last : (a : A) (xs : List A) → In a (xs ++ a ∷ [])
  In-append_last a [] = inl refl
  In-append_last a (x ∷ xs) = inr (In-append_last a xs)

  pub In-snoc : (a b : A) (xs : List A) → In a (xs ++ b ∷ []) → In a xs ⊎ (b ≡ a)
  In-snoc a b [] (inl e) = inr e
  In-snoc a b [] (inr i) = absurd i
  In-snoc a b (x ∷ xs) (inl e) = inl (inl e)
  In-snoc a b (x ∷ xs) (inr i) = elim (In-snoc a b xs i) [ inl j ↦ inl (inr j) | inr e ↦ inr e ]

-- `==` on texts that are lists of bytes or characters.
unfoldable pub bytes_eq : List ℕ → List ℕ → Bool
bytes_eq [] [] = true
bytes_eq (a ∷ xs) (b ∷ ys) = if eqb a b then bytes_eq xs ys else false
bytes_eq _ _ = false

pub bytes_eq_self : (xs : List ℕ) → bytes_eq xs xs ≡ true
unfolding bytes_eq
bytes_eq_self [] = refl
bytes_eq_self (a ∷ xs) = ground (arith, bytes_eq_self xs)

pub bytes_eq→eq : (xs ys : List ℕ) → bytes_eq xs ys ≡ true → xs ≡ ys
unfolding bytes_eq
bytes_eq→eq [] [] h = refl
bytes_eq→eq [] (b ∷ ys) h = cc
bytes_eq→eq (a ∷ xs) [] h = cc
bytes_eq→eq (a ∷ xs) (b ∷ ys) h = ground (arith, bytes_eq→eq xs ys)

pub ne_of_bytes_eq : (xs ys : List ℕ) → bytes_eq xs ys ≡ false → xs ≢ ys
ne_of_bytes_eq xs ys h e = cc (bytes_eq_self ys, ap (λ l. bytes_eq l ys) e)
