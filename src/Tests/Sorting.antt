-- ===== src/Tests/Sorting.antt =====
-- A stand-in for `sort.Slice`: insertion sort.
use oiaf.Base.{
  Bool, true, false, ◌≡◌, inl, inr, List, [], ◌∷◌, In, ℤ, pos, negsuc, ltb_ℤ, arith, Bool-cases,
  if◌then◌else◌,
}
use oiaf.Policy.{is_higher, is_stricter}
use oiaf.Policy.Sorting.{Sorted, Sorts}

unfoldable pub insert : {A : Type 0} → (A → A → Bool) → A → List A → List A
insert less a [] = a ∷ []
insert less a (x ∷ r) = let rest = insert less a r in if less x a then x ∷ rest else a ∷ (x ∷ r)

unfoldable pub insertion_sort : {A : Type 0} → (A → A → Bool) → List A → List A
unfolding insert
insertion_sort less [] = []
insertion_sort less (a ∷ r) = insert less a (insertion_sort less r)

module _ {A : Type 0} (less : A → A → Bool) (asym : (a b : A) → less a b ≡ true → less b a ≡ false)
    (trans : (a b c : A) → less b a ≡ false → less c b ≡ false → less c a ≡ false) where
  insert-In : (x a : A) (r : List A) → In x (a ∷ r) → In x (insert less a r)
  unfolding insert
  insert-In x a [] i = i
  insert-In x a (y ∷ r) i = ground (arith, insert-In x a r)

  In-insert : (x a : A) (r : List A) → In x (insert less a r) → In x (a ∷ r)
  unfolding insert
  In-insert x a [] i = i
  In-insert x a (y ∷ r) i = ground (arith, In-insert x a r)

  insert-Sorted : (a : A) (r : List A) → Sorted less r → Sorted less (insert less a r)
  unfolding insert
  insert-Sorted a [] h = (λ b i. absurd i, tt)
  insert-Sorted a (x ∷ r) (n, h) = elim (Bool-cases (less x a)) [
    | inl p ↦ rw p (
      λ b i. elim (In-insert b a r i) [ inl e ↦ rw (← e) (asym x a p) | inr j ↦ n b j ],
      insert-Sorted a r h,
    )
    | inr p ↦ rw p (λ b i. elim i [ inl e ↦ rw (← e) p | inr j ↦ trans a x b p (n b j) ], (n, h))
  ]

  sorted : (xs : List A) → Sorted less (insertion_sort less xs)
  unfolding insertion_sort
  sorted [] = tt
  sorted (a ∷ r) = insert-Sorted a (insertion_sort less r) (sorted r)

  keeps : (x : A) (xs : List A) → In x xs → In x (insertion_sort less xs)
  unfolding insertion_sort
  keeps x [] i = i
  keeps x (a ∷ r) (inl e) = insert-In x a (insertion_sort less r) (inl e)
  keeps x (a ∷ r) (inr i) = insert-In x a (insertion_sort less r) (inr (keeps x r i))

  adds_none : (x : A) (xs : List A) → In x (insertion_sort less xs) → In x xs
  unfolding insertion_sort
  adds_none x [] i = i
  adds_none x (a ∷ r) i = elim (In-insert x a (insertion_sort less r) i) [
    | inl e ↦ inl e
    | inr j ↦ inr (adds_none x r j)
  ]

  insertion_sort-Sorts : Sorts less insertion_sort
  insertion_sort-Sorts = record { sorted = sorted; keeps = keeps; adds_none = adds_none }

asym_ℤ : (a b : ℤ) → ltb_ℤ a b ≡ true → ltb_ℤ b a ≡ false
unfolding ltb_ℤ
asym_ℤ (pos a) (pos b) h = ground arith
asym_ℤ (pos a) (negsuc b) h = ground arith
asym_ℤ (negsuc a) (pos b) h = ground arith
asym_ℤ (negsuc a) (negsuc b) h = ground arith

trans_ℤ : (a b c : ℤ) → ltb_ℤ a b ≡ false → ltb_ℤ b c ≡ false → ltb_ℤ a c ≡ false
unfolding ltb_ℤ
trans_ℤ (pos a) (pos b) (pos c) h k = ground arith
trans_ℤ (pos a) (pos b) (negsuc c) h k = ground arith
trans_ℤ (pos a) (negsuc b) (pos c) h k = ground arith
trans_ℤ (pos a) (negsuc b) (negsuc c) h k = ground arith
trans_ℤ (negsuc a) (pos b) (pos c) h k = ground arith
trans_ℤ (negsuc a) (pos b) (negsuc c) h k = ground arith
trans_ℤ (negsuc a) (negsuc b) (pos c) h k = ground arith
trans_ℤ (negsuc a) (negsuc b) (negsuc c) h k = ground arith

pub by_priority : Sorts is_higher insertion_sort
by_priority =
    insertion_sort-Sorts is_higher (λ a b h. asym_ℤ b.priority a.priority h)
      (λ a b c h k. trans_ℤ a.priority b.priority c.priority h k)

pub by_strictness : Sorts is_stricter insertion_sort
by_strictness = insertion_sort-Sorts is_stricter (λ a b h. ground arith) (λ a b c h k. ground arith)
