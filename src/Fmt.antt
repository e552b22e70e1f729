-- ===== src/Fmt.antt =====
-- What adapters/ad-response/actions.go uses of Go's `fmt`: `Sprintf("%d", n)` and
-- `Sscanf(s, "%d", &n)` on a 64-bit `int`.
pub mod Decimal
pub mod Scan
use Prim.Native.Nat.{◌/◌, ◌%◌}
use oiaf.Base.{
  ℕ, zero, suc, ℤ, pos, negsuc, ◌+◌, Bool, ◌||◌, String, List, [], ◌∷◌, codes, eqb, ltb,
  if◌then◌else◌,
}
use oiaf.Strconv.{Parsed, value, range, syntax, is_digit, is_space, parse_int}

-- The character at a place, before a text.
unfoldable pub push_nth : String → ℕ → String → String
push_nth String.[] n s = s
push_nth (String.◌∷◌ c r) zero s = String.◌∷◌ c s
push_nth (String.◌∷◌ c r) (suc n) s = push_nth r n s

unfoldable pub digit : ℕ → String → String
unfolding push_nth
digit n s = push_nth "0123456789" n s

-- The digits of `n` before the text, on fuel.
unfoldable pub print_digits : ℕ → ℕ → String → String
unfolding digit
print_digits zero n s = s
print_digits (suc fuel) n s =
    let rest = print_digits fuel (n / 10) (digit (n % 10) s) in if ltb n 10 then digit n s else rest

-- A number of 64 bits has at most 20 digits.
unfoldable pub print_nat : ℕ → String
print_nat n = print_digits 20 n ""

-- `Sprintf("%d", n)`
unfoldable pub print_int : ℤ → String
print_int (pos n) = print_nat n
print_int (negsuc n) = String.◌∷◌ "-" (print_nat (suc n))

unfoldable pub take_digits : List ℕ → List ℕ
take_digits [] = []
take_digits (a ∷ r) = let rest = take_digits r in if is_digit a then a ∷ rest else []

-- The sign, if there is one, and the digits.
unfoldable pub take_number : List ℕ → List ℕ
take_number [] = []
take_number (a ∷ r) = if eqb a b'-' || eqb a b'+' then a ∷ take_digits r else take_digits (a ∷ r)

-- The variable keeps its zero where the number cannot be read.
unfoldable pub read_number : List ℕ → ℤ
read_number s = elim (parse_int (take_number s)) [ value n ↦ n | range n ↦ pos 0 | syntax ↦ pos 0 ]

-- `Sscanf(s, "%d", &n)`: spaces are skipped, but a new line is an error.
unfoldable pub scan_codes : List ℕ → ℤ
scan_codes [] = pos 0
scan_codes (a ∷ r) =
    let rest = scan_codes r in
    if eqb a 10 then pos 0 else if is_space a then rest else read_number (a ∷ r)

unfoldable pub scan_int : String → ℤ
scan_int s = scan_codes (codes s)
