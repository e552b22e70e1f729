-- ===== src/Fmt/Decimal.antt =====
-- The digits that `Sprintf("%d", n)` writes are those that `Sscanf` reads.
use Prim.Native.Nat.{◌/◌, ◌%◌, ◌^◌}
use oiaf.Base.{
  ℕ, zero, suc, ◌+◌, ◌-◌, ◌*◌, ◌<◌, ◌≡◌, refl, ap, true, inl, inr, String, List, ◌∷◌, codes, ltb,
  lt→ltb, ltb→lt, arith, Bool-cases,
}
use oiaf.Strconv.{parse_digits, is_digit, uint64_limit}
use oiaf.Fmt.{push_nth, digit, print_digits}

pub codes-digit : (n : ℕ) (s : String) → n < 10 → codes (digit n s) ≡ (48 + n) ∷ codes s
unfolding digit push_nth
codes-digit zero s h = refl
codes-digit (suc zero) s h = refl
codes-digit (suc (suc zero)) s h = refl
codes-digit (suc (suc (suc zero))) s h = refl
codes-digit (suc (suc (suc (suc zero)))) s h = refl
codes-digit (suc (suc (suc (suc (suc zero))))) s h = refl
codes-digit (suc (suc (suc (suc (suc (suc zero)))))) s h = refl
codes-digit (suc (suc (suc (suc (suc (suc (suc zero))))))) s h = refl
codes-digit (suc (suc (suc (suc (suc (suc (suc (suc zero)))))))) s h = refl
codes-digit (suc (suc (suc (suc (suc (suc (suc (suc (suc zero))))))))) s h = refl
codes-digit (suc (suc (suc (suc (suc (suc (suc (suc (suc (suc n)))))))))) s h =
    absurd (omega (arith, h))

pub digit-is_digit : (n : ℕ) → n < 10 → is_digit (48 + n) ≡ true
unfolding is_digit
digit-is_digit n h = ground arith

parse_digits-digit :
    (m n v : ℕ) (r : List ℕ)
    → n < 10
    → v < uint64_limit
    → m * 10 + n ≡ v
    → parse_digits m ((48 + n) ∷ r) ≡ parse_digits v r
unfolding parse_digits
parse_digits-digit m n v r h b e =
    let next : m * 10 + (48 + n - 48) ≡ v = omega (arith, e) in
    rw (digit-is_digit n h, next, lt→ltb v uint64_limit b) refl

pub parse-print_digits :
    (fuel n : ℕ) (s : String)
    → n < 10 ^ fuel
    → n < uint64_limit
    → parse_digits 0 (codes (print_digits fuel n s)) ≡ parse_digits n (codes s)
unfolding print_digits
parse-print_digits zero n s h b = ap (λ m. parse_digits m (codes s)) (omega arith)
parse-print_digits (suc fuel) n s h b = elim (Bool-cases (ltb n 10)) [
  | inl p ↦
      rw (p, codes-digit n s (ltb→lt n 10 p))
        (parse_digits-digit 0 n n (codes s) (ltb→lt n 10 p) b (omega arith))
  | inr p ↦
      rw
        (
          p,
          parse-print_digits fuel (n / 10) (digit (n % 10) s) (omega (arith, h)) (omega (arith, b)),
          codes-digit (n % 10) s (omega arith),
        )
        (parse_digits-digit (n / 10) (n % 10) n (codes s) (omega arith) b (omega arith))
]
