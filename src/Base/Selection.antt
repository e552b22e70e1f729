-- ===== src/Base/Selection.antt =====
-- What a loop takes from a list by a test, as a relation.
use oiaf.Base.{◌≡◌, inl, inr, Bool, true, false, List, [], ◌∷◌, ◌++◌, filter_by, Bool-cases}

-- The first list has the elements of the second that satisfy the predicate, in their order.
pub data IsSelection {A : Type 0} (P : A → Type 0) : List A → List A → Type 0 where
  nil : IsSelection P [] []
  kept : {a : A} {xs ys : List A} → P a → IsSelection P xs ys → IsSelection P (a ∷ xs) (a ∷ ys)
  left_out : {a : A} {xs ys : List A} → ¬ P a → IsSelection P xs ys → IsSelection P xs (a ∷ ys)

pub filter_by-IsSelection :
    {A : Type 0} (P : A → Type 0) (test : A → Bool) (xs : List A)
    → ((a : A) → test a ≡ true → P a)
    → ((a : A) → test a ≡ false → ¬ P a)
    → IsSelection P (filter_by test xs) xs
unfolding filter_by
filter_by-IsSelection P test [] h k = nil
filter_by-IsSelection P test (a ∷ xs) h k = elim (Bool-cases (test a)) [
  | inl p ↦ rw p (kept (h a p) (filter_by-IsSelection P test xs h k))
  | inr p ↦ rw p (left_out (k a p) (filter_by-IsSelection P test xs h k))
]

pub kept_last :
    {A : Type 0} {P : A → Type 0} {xs ys : List A} (a : A)
    → P a
    → IsSelection P xs ys
    → IsSelection P (xs ++ a ∷ []) (ys ++ a ∷ [])
kept_last a p nil = kept p nil
kept_last a p (kept q s) = kept q (kept_last a p s)
kept_last a p (left_out q s) = left_out q (kept_last a p s)

pub left_out_last :
    {A : Type 0} {P : A → Type 0} {xs ys : List A} (a : A)
    → ¬ P a
    → IsSelection P xs ys
    → IsSelection P xs (ys ++ a ∷ [])
left_out_last a n nil = left_out n nil
left_out_last a n (kept q s) = kept q (left_out_last a n s)
left_out_last a n (left_out q s) = left_out q (left_out_last a n s)
