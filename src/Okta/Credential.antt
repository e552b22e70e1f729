-- ===== src/Okta/Credential.antt =====
-- The adapter's credential is struck from every text: adapters/okta/credential.go. Texts are lists of
-- code points, as the code compares them. `unicode.ToLower` and the escapes of `net/url` are
-- parameters.
pub mod Clean
use oiaf.Base.{
  ℕ, zero, suc, ◌+◌, ◌-◌, Bool, true, false, not, ◌&&◌, List, [], ◌∷◌, ◌++◌, codes, map, take,
  length, is_empty, bytes_eq, leb, ltb, eqb, if◌then◌else◌,
}
use oiaf.Policy.Values.{is_prefix, contains}

pub record TextLib : Type 0 where
  pub lower : ℕ → ℕ
  pub query_escape : List ℕ → List ℕ
  pub path_escape : List ℕ → List ℕ

abbrev pub min_token_fragment_len : ℕ
min_token_fragment_len = 8

abbrev pub max_unknown_chars_after_leak : ℕ
max_unknown_chars_after_leak = 12

unfoldable pub fragment_threshold : List ℕ → ℕ
fragment_threshold token =
    let t = length token + 1 - max_unknown_chars_after_leak in
    if ltb t min_token_fragment_len then min_token_fragment_len else t

abbrev pub fold : TextLib → List ℕ → List ℕ
fold lib s = map lib.lower s

-- One step of the insertion sort that puts the longest first: before the first that is shorter.
unfoldable pub insert_needle : List ℕ → List (List ℕ) → List (List ℕ)
insert_needle x [] = x ∷ []
insert_needle x (y ∷ r) =
    let rest = insert_needle x r in if ltb (length y) (length x) then x ∷ (y ∷ r) else y ∷ rest

unfoldable pub insert_all : List (List ℕ) → List (List ℕ) → List (List ℕ)
insert_all sorted [] = sorted
insert_all sorted (x ∷ r) = insert_all (insert_needle x sorted) r

-- The spellings besides the plain one: an escape that changes nothing is none, nor is one twice.
unfoldable pub escaped_needles : TextLib → List ℕ → List (List ℕ)
escaped_needles lib token =
    let q = lib.query_escape token in
    let p = lib.path_escape token in
    let first = if bytes_eq q token then [] else fold lib q ∷ [] in
    let second = if bytes_eq p token then [] else if bytes_eq p q then [] else fold lib p ∷ [] in
    first ++ second

unfoldable pub credential_needles : TextLib → List ℕ → List (List ℕ)
unfolding insert_all escaped_needles
credential_needles lib token = insert_all (fold lib token ∷ []) (escaped_needles lib token)

-- The length of the first needle with which the folded text starts, or 0.
unfoldable pub match_needle_at : List ℕ → List (List ℕ) → ℕ
match_needle_at fs [] = 0
match_needle_at fs (n ∷ r) =
    let rest = match_needle_at fs r in if not (is_empty n) && is_prefix n fs then length n else rest

-- From `l` down to the threshold.
unfoldable pub fragment_from : ℕ → List ℕ → List ℕ → ℕ → ℕ
fragment_from zero fs token_folded threshold = 0
fragment_from (suc l) fs token_folded threshold =
    let rest = fragment_from l fs token_folded threshold in
    if ltb (suc l) threshold
    then 0
    else if contains token_folded (take (suc l) fs)
    then suc l
    else rest

abbrev smaller : ℕ → ℕ → ℕ
smaller a b = if ltb b a then b else a

unfoldable pub longest_token_fragment_at : List ℕ → List ℕ → ℕ → ℕ
unfolding fragment_from
longest_token_fragment_at fs token_folded threshold =
    fragment_from (smaller (length token_folded - 1) (length fs)) fs token_folded threshold

-- What is written to the result: the marker, or a code point of the text.
pub data Written : Type 0 where
  marker : Written
  copied : ℕ → Written

abbrev first_needle : List (List ℕ) → List ℕ
first_needle [] = []
first_needle (n ∷ r) = n

-- How many code points are struck here: a whole spelling first, then a fragment of the first needle.
unfoldable pub struck : List (List ℕ) → Bool → ℕ → List ℕ → ℕ
unfolding match_needle_at longest_token_fragment_at
struck needles sweep threshold fs =
    let n = match_needle_at fs needles in
    let m = longest_token_fragment_at fs (first_needle needles) threshold in
    if ltb 0 n then n else if sweep then m else 0

-- The loop, with the number of code points that a match still covers.
unfoldable pub redact_from : TextLib → List (List ℕ) → Bool → ℕ → ℕ → List ℕ → List Written
unfolding struck
redact_from lib needles sweep threshold skip [] = []
redact_from lib needles sweep threshold (suc k) (r ∷ rs) =
    redact_from lib needles sweep threshold k rs
redact_from lib needles sweep threshold zero (r ∷ rs) =
    let n = struck needles sweep threshold (fold lib (r ∷ rs)) in
    let after = redact_from lib needles sweep threshold (n - 1) rs in
    let copy = redact_from lib needles sweep threshold 0 rs in
    if ltb 0 n then marker ∷ after else copied r ∷ copy

unfoldable pub redacted_writes : TextLib → List ℕ → List ℕ → List Written
unfolding redact_from credential_needles fragment_threshold
redacted_writes lib s token =
    let threshold = fragment_threshold token in
    if bytes_eq s token
    then marker ∷ []
    else redact_from lib (credential_needles lib token) (ltb threshold (length token)) threshold 0 s

unfoldable pub render : List Written → List ℕ
render [] = []
render (marker ∷ r) = codes "[redacted]" ++ render r
render (copied a ∷ r) = a ∷ render r

unfoldable pub redact_credential : TextLib → List ℕ → List ℕ → List ℕ
unfolding redacted_writes render
redact_credential lib s token =
    if is_empty token then s else if is_empty s then s else render (redacted_writes lib s token)
