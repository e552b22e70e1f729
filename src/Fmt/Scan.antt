-- ===== src/Fmt/Scan.antt =====
-- `Sscanf` reads back the number that `Sprintf` wrote.
use Prim.Native.Nat.{◌/◌, ◌%◌, ◌^◌}
use oiaf.Base.{
  ℕ, zero, suc, ℤ, pos, negsuc, ◌+◌, ◌-◌, ◌<◌, ◌≡◌, refl, ap, ◌∙◌, true, false, inl, inr, String,
  List, ◌∷◌, codes, eqb, leb, ltb, arith, Bool-cases, ltb→lt,
}
use oiaf.Strconv.{
  value, parse_digits, parse_uint, is_space, parse_int, signed, uint64_limit, int64_limit,
}
use oiaf.Fmt.{
  digit, print_digits, print_nat, print_int, take_digits, take_number, read_number, scan_codes,
  scan_int,
}
use oiaf.Fmt.Decimal.{codes-digit, digit-is_digit, parse-print_digits}

-- One digit or more.
record AreDigits (s : List ℕ) : Type 0 where
  head : ℕ
  tail : List ℕ
  parts : s ≡ (48 + head) ∷ tail
  small : head < 10
  whole : take_digits s ≡ s

digit-AreDigits :
    (n : ℕ) (s : String) → n < 10 → take_digits (codes s) ≡ codes s → AreDigits (codes (digit n s))
unfolding take_digits
digit-AreDigits n s h w = record {
  head = n;
  tail = codes s;
  parts = codes-digit n s h;
  small = h;
  whole = rw (codes-digit n s h, digit-is_digit n h, w) refl;
}

print-AreDigits :
    (fuel n : ℕ) (s : String)
    → n < 10 ^ suc fuel
    → take_digits (codes s) ≡ codes s
    → AreDigits (codes (print_digits (suc fuel) n s))
unfolding print_digits
print-AreDigits zero n s h w = elim (Bool-cases (ltb n 10)) [
  | inl p ↦ rw p (digit-AreDigits n s (ltb→lt n 10 p) w)
  | inr p ↦ absurd (ground (arith, h, p))
]
print-AreDigits (suc fuel) n s h w = elim (Bool-cases (ltb n 10)) [
  | inl p ↦ rw p (digit-AreDigits n s (ltb→lt n 10 p) w)
  | inr p ↦ rw p (
      print-AreDigits fuel (n / 10) (digit (n % 10) s) (omega (arith, h))
        (digit-AreDigits (n % 10) s (omega arith) w).whole)
]

nat-AreDigits : (n : ℕ) → n < uint64_limit → AreDigits (codes (print_nat n))
unfolding print_nat take_digits
nat-AreDigits n h = print-AreDigits 19 n "" (omega (arith, h)) refl

parse_uint-print : (n : ℕ) → n < uint64_limit → parse_uint (codes (print_nat n)) ≡ value n
unfolding parse_uint print_nat parse_digits
parse_uint-print n h =
    let d = nat-AreDigits n h in
    let whole : parse_uint (codes (print_nat n)) ≡ parse_digits 0 (codes (print_nat n)) =
      rw d.parts refl in
    whole ∙ parse-print_digits 20 n "" (omega (arith, h)) h

-- A digit is no sign and no space.
digit_plain :
    (d : ℕ)
    → d < 10
    → (eqb (48 + d) 10 ≡ false)
      × (is_space (48 + d) ≡ false)
      × (eqb (48 + d) b'-' ≡ false)
      × (eqb (48 + d) b'+' ≡ false)
unfolding is_space
digit_plain d h = (ground arith, ground arith, ground arith, ground arith)

scan_digits : (s : List ℕ) → AreDigits s → scan_codes s ≡ read_number s
unfolding scan_codes
scan_digits s d =
    let (newline, space, minus, plus) = digit_plain d.head d.small in
    rw (d.parts, newline, space) refl

take_number-digits : (s : List ℕ) → AreDigits s → take_number s ≡ s
unfolding take_number
take_number-digits s d =
    let (newline, space, minus, plus) = digit_plain d.head d.small in
    let digits : take_number s ≡ take_digits s = rw (d.parts, minus, plus) refl in digits ∙ d.whole

parse_int-digits : (s : List ℕ) → AreDigits s → parse_int s ≡ signed false (parse_uint s)
unfolding parse_int
parse_int-digits s d =
    let (newline, space, minus, plus) = digit_plain d.head d.small in rw (d.parts, minus, plus) refl

read_number-value : (s : List ℕ) (v : ℤ) → parse_int (take_number s) ≡ value v → read_number s ≡ v
unfolding read_number
read_number-value s v e = rw (read_number, e) refl

signed-pos : (n : ℕ) → n < int64_limit → signed false (value n) ≡ value (pos n)
unfolding signed
signed-pos n h = let below : leb int64_limit n ≡ false = ground (arith, h) in rw below refl

signed-neg : (n : ℕ) → n < int64_limit → signed true (value (suc n)) ≡ value (negsuc n)
unfolding signed
signed-neg n h =
    let below : ltb int64_limit (suc n) ≡ false = ground (arith, h) in
    let positive : eqb (suc n) 0 ≡ false = ground arith in
    let before : suc n - 1 ≡ n = omega arith in rw (below, positive, before) refl

scan-print_pos : (n : ℕ) → n < int64_limit → scan_int (print_int (pos n)) ≡ pos n
unfolding scan_int print_int
scan-print_pos n h =
    let d = nat-AreDigits n (omega (arith, h)) in
    let s = codes (print_nat n) in
    scan_digits s d
    ∙ read_number-value s (pos n) (
        ap parse_int (take_number-digits s d)
        ∙ parse_int-digits s d
        ∙ ap (signed false) (parse_uint-print n (omega (arith, h)))
        ∙ signed-pos n h)

scan-print_neg : (n : ℕ) → n < int64_limit → scan_int (print_int (negsuc n)) ≡ negsuc n
unfolding scan_int print_int scan_codes is_space take_number parse_int
scan-print_neg n h =
    let d = nat-AreDigits (suc n) (omega (arith, h)) in
    let s = codes (print_nat (suc n)) in
    read_number-value (45 ∷ s) (negsuc n) (
      ap (λ r. parse_int (45 ∷ r)) d.whole
      ∙ ap (signed true) (parse_uint-print (suc n) (omega (arith, h)))
      ∙ signed-neg n h)

-- A number of a 64-bit `int`.
abbrev pub IsInt64 : ℤ → Type 0
IsInt64 (pos n) = n < int64_limit
IsInt64 (negsuc n) = n < int64_limit

-- The 64-bit `int` that is written is read again.
pub scan-print : (n : ℤ) → IsInt64 n → scan_int (print_int n) ≡ n
scan-print (pos n) h = scan-print_pos n h
scan-print (negsuc n) h = scan-print_neg n h
