-- ===== src/Policy/Sorting.antt =====
-- What `sort.Slice` promises: the elements stay, and none comes after one that it precedes.
use oiaf.Base.{Bool, false, ◌≡◌, List, [], ◌∷◌, In}

module _ {A : Type 0} (less : A → A → Bool) where
  abbrev pub NoneBefore : A → List A → Type 0
  NoneBefore a xs = (b : A) → In b xs → less b a ≡ false

  abbrev pub Sorted : List A → Type 0
  Sorted [] = Unit
  Sorted (a ∷ r) = NoneBefore a r × Sorted r

  pub record Sorts (sort : (A → A → Bool) → List A → List A) : Type 0 where
    pub sorted : (xs : List A) → Sorted (sort less xs)
    pub keeps : (a : A) (xs : List A) → In a xs → In a (sort less xs)
    pub adds_none : (a : A) (xs : List A) → In a (sort less xs) → In a xs
