-- ===== src/Strconv.antt =====
-- What the program uses of Go's `strconv` and `strings`, in core/internal/inventory/scanner.go,
-- core/internal/api/api.go, core/internal/config/config.go and adapters/ad-response: `ParseInt` in
-- base 10 with 64 bits, `Atoi`, `ParseBool`, `TrimSpace`, `TrimLeft`.
use Prim.Native.Char.{code}
use oiaf.Base.{
  Option, none, some, ◌==◌, ℕ, ℤ, pos, negsuc, ◌+◌, ◌-◌, ◌*◌, Bool, true, false, ◌&&◌, ◌||◌, String,
  List, [], ◌∷◌, codes, is_empty, eqb, leb, ltb, if◌then◌else◌,
}

-- `2 ^ 63` and `2 ^ 64`
abbrev pub int64_limit : ℕ
int64_limit = 9223372036854775808

abbrev pub uint64_limit : ℕ
uint64_limit = 18446744073709551616

-- A value; a value out of range, for which the greatest or least one stands; a syntax error, for
-- which 0 stands.
pub data Parsed {ℓ} (A : Type ℓ) : Type ℓ where
  value : A → Parsed A
  range : A → Parsed A
  syntax : Parsed A

unfoldable pub is_digit : ℕ → Bool
is_digit a = leb b'0' a && leb a b'9'

-- The digits after the number read so far.
unfoldable pub parse_digits : ℕ → List ℕ → Parsed ℕ
parse_digits n [] = value n
parse_digits n (a ∷ r) =
    let m = n * 10 + (a - b'0') in
    let rest = parse_digits m r in
    if is_digit a then if ltb m uint64_limit then rest else range (uint64_limit - 1) else syntax

-- `strconv.ParseUint(s, 10, 64)`
unfoldable pub parse_uint : List ℕ → Parsed ℕ
parse_uint [] = syntax
parse_uint (a ∷ r) = parse_digits 0 (a ∷ r)

-- `-n`
abbrev pub negated : ℕ → ℤ
negated n = if eqb n 0 then pos 0 else negsuc (n - 1)

unfoldable pub signed : Bool → Parsed ℕ → Parsed ℤ
signed neg syntax = syntax
signed true (range n) = range (negated int64_limit)
signed false (range n) = range (pos (int64_limit - 1))
signed true (value n) = if ltb int64_limit n then range (negated int64_limit) else value (negated n)
signed false (value n) = if leb int64_limit n then range (pos (int64_limit - 1)) else value (pos n)

-- `strconv.ParseInt(s, 10, 64)`
unfoldable pub parse_int : List ℕ → Parsed ℤ
parse_int [] = syntax
parse_int (a ∷ r) =
    if eqb a b'-'
    then signed true (parse_uint r)
    else if eqb a b'+'
    then signed false (parse_uint r)
    else signed false (parse_uint (a ∷ r))

-- `n, _ := strconv.Atoi(s)`
unfoldable pub atoi : List ℕ → ℤ
atoi s = elim (parse_int s) [ value n ↦ n | range n ↦ n | syntax ↦ pos 0 ]

-- `strconv.ParseBool`
abbrev pub parse_bool : String → Option Bool
parse_bool s =
    if s == "1" || s == "t" || s == "T" || s == "true" || s == "TRUE" || s == "True"
    then some true
    else if s == "0" || s == "f" || s == "F" || s == "false" || s == "FALSE" || s == "False"
    then some false
    else none

-- `unicode.IsSpace`
unfoldable pub is_space : ℕ → Bool
is_space a =
    (leb 9 a && leb a 13)
    || eqb a 32
    || eqb a 133
    || eqb a 160
    || eqb a 5760
    || (leb 8192 a && leb a 8202)
    || eqb a 8232
    || eqb a 8233
    || eqb a 8239
    || eqb a 8287
    || eqb a 12288

-- `strings.TrimLeft`, by a test
unfoldable pub trim_left : (ℕ → Bool) → List ℕ → List ℕ
trim_left test [] = []
trim_left test (a ∷ r) = let rest = trim_left test r in if test a then rest else a ∷ r

unfoldable pub trim_right : (ℕ → Bool) → List ℕ → List ℕ
trim_right test [] = []
trim_right test (a ∷ r) =
    let rest = trim_right test r in if test a && is_empty rest then [] else a ∷ rest

-- `strings.TrimSpace`
unfoldable pub trim_space : List ℕ → List ℕ
trim_space s = trim_right is_space (trim_left is_space s)

-- The same on texts.
unfoldable pub trim_text_left : String → String
trim_text_left String.[] = String.[]
trim_text_left (String.◌∷◌ c s) =
    let rest = trim_text_left s in if is_space (code c) then rest else String.◌∷◌ c s

unfoldable pub trim_text_right : String → String
trim_text_right String.[] = String.[]
trim_text_right (String.◌∷◌ c s) =
    let rest = trim_text_right s in
    if is_space (code c) && is_empty (codes rest) then String.[] else String.◌∷◌ c rest

unfoldable pub trim_text : String → String
trim_text s = trim_text_right (trim_text_left s)
