-- ===== src/Okta/Credential/Clean.antt =====
-- What adapters/okta/credential.go leaves of a credential.
use oiaf.Base.{
  ℕ, zero, suc, ◌-◌, ◌<◌, ◌≡◌, refl, sym, ap, ◌∙◌, Bool, true, false, List, [], ◌∷◌, ◌++◌, map,
  length, is_empty, bytes_eq, bytes_eq, ltb, In, inl, inr, arith, Bool-cases,
}
use oiaf.Policy.Values.{is_prefix, contains}
use oiaf.Okta.Credential.{
  redact_credential, render, TextLib, fold, insert_needle, insert_all, escaped_needles,
  credential_needles, match_needle_at, struck, Written, marker, copied, redact_from,
  redacted_writes, fragment_threshold,
}

-- The texts between the markers.
pub run_parts : List Written → List ℕ × List (List ℕ)
run_parts [] = ([], [])
run_parts (marker ∷ r) = let (run, rest) = run_parts r in ([], run ∷ rest)
run_parts (copied a ∷ r) = let (run, rest) = run_parts r in (a ∷ run, rest)

pub runs : List Written → List (List ℕ)
runs w = (run_parts w).0 ∷ (run_parts w).1

is_prefix-append : (n xs ys : List ℕ) → is_prefix n (xs ++ ys) ≡ false → is_prefix n xs ≡ false
unfolding is_prefix
is_prefix-append [] xs ys h = h
is_prefix-append (a ∷ n) [] ys h = refl
is_prefix-append (a ∷ n) (b ∷ xs) ys h = ground (arith, is_prefix-append n xs ys)

map-append : (f : ℕ → ℕ) (xs ys : List ℕ) → map f (xs ++ ys) ≡ map f xs ++ map f ys
map-append f [] ys = refl
map-append f (x ∷ xs) ys = ap (λ l. f x ∷ l) (map-append f xs ys)

nonempty_length : (m : List ℕ) → is_empty m ≡ false → 0 < length m
nonempty_length [] h = cc
nonempty_length (a ∷ m) h = omega arith

-- The test of one needle and of the others.
match_head :
    (fs m : List ℕ) (r : List (List ℕ))
    → match_needle_at fs (m ∷ r) ≡ 0
    → is_empty m ≡ false
    → is_prefix m fs ≡ false
unfolding match_needle_at
match_head fs m r h e = ground (arith, nonempty_length m e)

match_tail :
    (fs m : List ℕ) (r : List (List ℕ)) → match_needle_at fs (m ∷ r) ≡ 0 → match_needle_at fs r ≡ 0
unfolding match_needle_at
match_tail fs m r h = ground (arith, nonempty_length m)

-- Where nothing is struck, no needle starts.
no_match :
    (fs n : List ℕ) (needles : List (List ℕ))
    → In n needles
    → is_empty n ≡ false
    → match_needle_at fs needles ≡ 0
    → is_prefix n fs ≡ false
no_match fs n [] i e h = absurd i
no_match fs n (m ∷ r) (inl p) e h = rw (← p) (match_head fs m r h (ap is_empty p ∙ e))
no_match fs n (m ∷ r) (inr i) e h = no_match fs n r i e (match_tail fs m r h)

struck-zero :
    (needles : List (List ℕ)) (sweep : Bool) (threshold : ℕ) (fs : List ℕ)
    → ltb 0 (struck needles sweep threshold fs) ≡ false
    → match_needle_at fs needles ≡ 0
unfolding struck
struck-zero needles sweep threshold fs h = ground arith

contains-nil : (n : List ℕ) → is_empty n ≡ false → contains [] n ≡ false
unfolding contains is_prefix
contains-nil [] h = cc
contains-nil (a ∷ n) h = refl

contains-cons :
    (n r : List ℕ) (a : ℕ)
    → is_prefix n (a ∷ r) ≡ false
    → contains r n ≡ false
    → contains (a ∷ r) n ≡ false
unfolding contains
contains-cons n r a p q = rw (p, q) refl

-- The texts between the markers hold no occurrence of the needle.
abbrev pub AreClean : TextLib → List ℕ → List (List ℕ) → Type 0
AreClean lib n [] = Unit
AreClean lib n (run ∷ r) = (contains (fold lib run) n ≡ false) × AreClean lib n r

module _ (lib : TextLib) (needles : List (List ℕ)) (sweep : Bool) (threshold : ℕ) (n : List ℕ)
    (listed : In n needles) (nonempty : is_empty n ≡ false) where
  abbrev writes : ℕ → List ℕ → List Written
  writes skip rs = redact_from lib needles sweep threshold skip rs

  -- Without a match that goes on, the first run is a part of the text from here.
  record Cleans (skip : ℕ) (rs : List ℕ) : Type 0 where
    first_clean : contains (fold lib (run_parts (writes skip rs)).0) n ≡ false
    rest_clean : AreClean lib n (run_parts (writes skip rs)).1
    is_part : skip ≡ 0 → (t : List ℕ) × ((run_parts (writes skip rs)).0 ++ t ≡ rs)

  struck-Cleans :
      (r : ℕ) (rs : List ℕ) (k : ℕ)
      → ltb 0 (struck needles sweep threshold (fold lib (r ∷ rs))) ≡ true
      → k ≡ struck needles sweep threshold (fold lib (r ∷ rs)) - 1
      → Cleans k rs
      → Cleans 0 (r ∷ rs)
  unfolding redact_from run_parts
  struck-Cleans r rs k h e c = record {
    first_clean = rw h (contains-nil n nonempty);
    rest_clean = rw (h, ← e) (c.first_clean, c.rest_clean);
    is_part = λ z. (r ∷ rs, rw h refl);
  }

  no_start :
      (r : ℕ) (rs t : List ℕ)
      → ltb 0 (struck needles sweep threshold (fold lib (r ∷ rs))) ≡ false
      → (run_parts (writes 0 rs)).0 ++ t ≡ rs
      → is_prefix n (lib.lower r ∷ fold lib (run_parts (writes 0 rs)).0) ≡ false
  no_start r rs t h e =
      is_prefix-append n (lib.lower r ∷ fold lib (run_parts (writes 0 rs)).0) (fold lib t) (
        ap (λ l. is_prefix n (lib.lower r ∷ l))
          (sym (map-append lib.lower (run_parts (writes 0 rs)).0 t) ∙ ap (fold lib) e)
        ∙ no_match (fold lib (r ∷ rs)) n needles listed nonempty
            (struck-zero needles sweep threshold (fold lib (r ∷ rs)) h))

  copied-Cleans :
      (r : ℕ) (rs : List ℕ)
      → ltb 0 (struck needles sweep threshold (fold lib (r ∷ rs))) ≡ false
      → Cleans 0 rs
      → Cleans 0 (r ∷ rs)
  unfolding redact_from run_parts
  copied-Cleans r rs h c =
      let (t, e) = c.is_part refl in
      record {
        first_clean = rw h (
            contains-cons n (fold lib (run_parts (writes 0 rs)).0) (lib.lower r)
              (no_start r rs t h e) c.first_clean);
        rest_clean = rw h c.rest_clean;
        is_part = λ z. (t, rw h (ap (λ l. r ∷ l) e));
      }

  all-Cleans : (skip : ℕ) (rs : List ℕ) → Cleans skip rs
  unfolding redact_from run_parts
  all-Cleans skip [] = record {
    first_clean = contains-nil n nonempty;
    rest_clean = tt;
    is_part = λ z. ([], refl);
  }
  all-Cleans (suc k) (r ∷ rs) =
      let c = all-Cleans k rs in
      record {
        first_clean = c.first_clean;
        rest_clean = c.rest_clean;
        is_part = λ z. absurd (omega (arith, z));
      }
  all-Cleans zero (r ∷ rs) =
      elim (Bool-cases (ltb 0 (struck needles sweep threshold (fold lib (r ∷ rs))))) [
        | inl h ↦ struck-Cleans r rs _ h refl (all-Cleans _ rs)
        | inr h ↦ copied-Cleans r rs h (all-Cleans 0 rs)
      ]

insert_needle-In :
    (x y : List ℕ) (needles : List (List ℕ)) → In y needles → In y (insert_needle x needles)
unfolding insert_needle
insert_needle-In x y [] i = absurd i
insert_needle-In x y (m ∷ r) (inl e) = elim (Bool-cases (ltb (length m) (length x))) [
  | inl p ↦ rw p (inr (inl e))
  | inr p ↦ rw p (inl e)
]
insert_needle-In x y (m ∷ r) (inr j) = elim (Bool-cases (ltb (length m) (length x))) [
  | inl p ↦ rw p (inr (inr j))
  | inr p ↦ rw p (inr (insert_needle-In x y r j))
]

insert_all-In : (y : List ℕ) (sorted xs : List (List ℕ)) → In y sorted → In y (insert_all sorted xs)
unfolding insert_all
insert_all-In y sorted [] i = i
insert_all-In y sorted (x ∷ r) i =
    insert_all-In y (insert_needle x sorted) r (insert_needle-In x y sorted i)

-- The plain spelling, folded, is among the needles.
plain-In : (lib : TextLib) (token : List ℕ) → In (fold lib token) (credential_needles lib token)
unfolding credential_needles
plain-In lib token = insert_all-In (fold lib token) _ (escaped_needles lib token) (inl refl)

fold-nonempty :
    (lib : TextLib) (token : List ℕ) → is_empty token ≡ false → is_empty (fold lib token) ≡ false
fold-nonempty lib [] h = cc
fold-nonempty lib (a ∷ r) h = refl

runs_clean :
    (lib : TextLib) (s token n : List ℕ)
    → In n (credential_needles lib token)
    → is_empty n ≡ false
    → AreClean lib n (runs (redacted_writes lib s token))
unfolding runs redacted_writes run_parts
runs_clean lib s token n listed e = elim (Bool-cases (bytes_eq s token)) [
  | inl same ↦ rw same (contains-nil n e, (contains-nil n e, tt))
  | inr differ ↦
      let c =
        all-Cleans lib (credential_needles lib token)
          (ltb (fragment_threshold token) (length token)) (fragment_threshold token) n listed e 0
          s in
      rw differ (c.first_clean, c.rest_clean)
]

redact_credential-render :
    (lib : TextLib) (s token : List ℕ)
    → is_empty token ≡ false
    → redact_credential lib s token ≡ render (redacted_writes lib s token)
unfolding redact_credential redacted_writes redact_from bytes_eq render
redact_credential-render lib s [] h = cc
redact_credential-render lib [] (a ∷ token) h = refl
redact_credential-render lib (b ∷ s) (a ∷ token) h = refl

-- For every text and every credential that is not empty, the outcome is what is copied of the text
-- with markers between, and what is copied between the markers holds no occurrence of the credential,
-- in any case of its letters and in any of the escaped spellings that are looked for; the plain
-- spelling is always one of those.
pub redacted_writes-AreClean :
    (lib : TextLib) (s token : List ℕ)
    → is_empty token ≡ false
    → (redact_credential lib s token ≡ render (redacted_writes lib s token))
      × AreClean lib (fold lib token) (runs (redacted_writes lib s token))
      × ((n : List ℕ)
          → In n (credential_needles lib token)
          → is_empty n ≡ false
          → AreClean lib n (runs (redacted_writes lib s token)))
redacted_writes-AreClean lib s token h = (
  redact_credential-render lib s token h,
  runs_clean lib s token (fold lib token) (plain-In lib token) (fold-nonempty lib token h),
  runs_clean lib s token,
)
