-- ===== src/Inventory/Instants.antt =====
-- The instants that core/internal/inventory/scanner.go's `parseFileTime` gives.
use mathlib.Core.Bool.{false≢true}
use oiaf.Base.{
  sym, ◌∙◌, bytes_eq, bytes_eq→eq, is_empty, ℕ, ◌+◌, ◌-◌, ◌*◌, ◌<◌, ◌≡◌, ◌≢◌, refl, ◌⊎◌, inl, inr,
  Bool, true, false, String, Option, none, some, List, [], ◌∷◌, codes, eqb, arith, Bool-cases, ℤ,
  pos, negsuc,
}
use oiaf.Types.Entities.{Time}
use oiaf.Strconv.{
  Parsed, value, range, syntax, signed, parse_int, parse_uint, trim_space, int64_limit,
}
use oiaf.Inventory.FileTime.{
  UnixTime, parse_file_time, instant, unix_time, is_never, difference, unix_epoch,
  file_time_unix_delta, from_ticks,
}

-- The first of January 1601 in nanoseconds since the year 1, and a tick is 100 of them.
abbrev pub epoch_1601 : Time
epoch_1601 = (unix_epoch - file_time_unix_delta) * 1000000000

-- Seconds that a signed 64-bit integer holds.
abbrev pub IsInt64 : ℤ → Type 0
IsInt64 (pos n) = n < int64_limit
IsInt64 (negsuc n) = n < int64_limit

signed-value : (neg : Bool) (p : Parsed ℕ) (n : ℕ) → signed neg p ≡ value (pos n) → n < int64_limit
unfolding signed
signed-value neg p n h = ground arith

parse_int-value : (s : List ℕ) (n : ℕ) → parse_int s ≡ value (pos n) → n < int64_limit
unfolding parse_int
parse_int-value [] n h = cc
parse_int-value (a ∷ r) n h = elim (Bool-cases (eqb a b'-')) [
  | inl m ↦ signed-value true (parse_uint r) n (ground arith)
  | inr m ↦ elim (Bool-cases (eqb a b'+')) [
    | inl p ↦ signed-value false (parse_uint r) n (ground arith)
    | inr p ↦ signed-value false (parse_uint (a ∷ r)) n (ground arith)
  ]
]

unix_time-instant :
    (ft : ℕ) → ft < int64_limit → instant (some (unix_time ft)) ≡ epoch_1601 + ft * 100
unfolding instant unix_time difference
unix_time-instant ft h = ground arith

unix_time-IsInt64 : (ft : ℕ) → ft < int64_limit → IsInt64 (unix_time ft).seconds
unfolding unix_time difference
unix_time-IsInt64 ft h = ground arith

-- The three texts that mean "never".
abbrev pub IsNeverText : List ℕ → Type 0
IsNeverText s = (s ≡ []) ⊎ (s ≡ codes "0") ⊎ (s ≡ codes "9223372036854775807")

-- The text names no instant: it means "never", or is no number above 0 that fits 64 bits.
abbrev pub IsUnknown : List ℕ → Type 0
IsUnknown s = IsNeverText s ⊎ ((ft : ℕ) → 0 < ft → parse_int s ≢ value (pos ft))

-- The text does not mean "never" and is this number of ticks, and the outcome is the instant so long
-- after the year 1601, with seconds that fit 64 bits.
pub record IsInstant (s : List ℕ) (t : Option UnixTime) : Type 0 where
  pub some_time : IsNeverText s → ⊥
  pub ticks : ℕ
  pub parsed : parse_int s ≡ value (pos ticks)
  pub positive : 0 < ticks
  pub fits : ticks < int64_limit
  pub seconds_fit : IsInt64 (unix_time ticks).seconds
  pub exact : instant t ≡ epoch_1601 + ticks * 100

empty_text : (s : List ℕ) → is_empty s ≡ true → s ≡ []
empty_text [] h = refl
empty_text (a ∷ r) h = cc

is_never-IsNeverText : (s : List ℕ) → is_never s ≡ true → IsNeverText s
unfolding is_never
is_never-IsNeverText s h = elim (Bool-cases (is_empty s)) [
  | inl p ↦ inl (empty_text s p)
  | inr p ↦ elim (Bool-cases (bytes_eq s (codes "0"))) [
    | inl q ↦ inr (inl (bytes_eq→eq s (codes "0") q))
    | inr q ↦ inr (inr (bytes_eq→eq s (codes "9223372036854775807") (rw (p, q) at h)))
  ]
]

not_never : (s : List ℕ) → is_never s ≡ false → IsNeverText s → ⊥
unfolding is_never bytes_eq
not_never s h (inl e) = false≢true (sym h ∙ rw e refl)
not_never s h (inr (inl e)) = false≢true (sym h ∙ rw e refl)
not_never s h (inr (inr e)) = false≢true (sym h ∙ rw e refl)

from_ticks_cases :
    (s : List ℕ) (p : Parsed ℤ)
    → (IsNeverText s → ⊥)
    → parse_int s ≡ p
    → ((from_ticks p ≡ none) × IsUnknown s) ⊎ IsInstant s (from_ticks p)
unfolding from_ticks
from_ticks_cases s (value (pos ft)) o e = elim (Bool-cases (eqb ft 0)) [
  | inl z ↦ inl (rw z refl, inr (λ n q h. ground arith))
  | inr p ↦ inr (record {
    some_time = o;
    ticks = ft;
    parsed = e;
    positive = ground arith;
    fits = parse_int-value s ft e;
    seconds_fit = unix_time-IsInt64 ft (parse_int-value s ft e);
    exact = rw p (unix_time-instant ft (parse_int-value s ft e));
  })
]
from_ticks_cases s (value (negsuc n)) o e = inl (refl, inr (λ ft q h. cc))
from_ticks_cases s (range n) o e = inl (refl, inr (λ ft q h. cc))
from_ticks_cases s syntax o e = inl (refl, inr (λ ft q h. cc))

parse_file_time-from_ticks :
    (text : String)
    → is_never (trim_space (codes text)) ≡ false
    → parse_file_time text ≡ from_ticks (parse_int (trim_space (codes text)))
unfolding parse_file_time
parse_file_time-from_ticks text h = rw h refl

parse_file_time-never :
    (text : String) → is_never (trim_space (codes text)) ≡ true → parse_file_time text ≡ none
unfolding parse_file_time
parse_file_time-never text h = rw h refl

-- A file time is read exactly: without the spaces around it, an empty text, "0",
-- "9223372036854775807", and a text that is no number above 0 in 64 bits give the zero time, and
-- they only; every other text gives the instant that lies its number of ticks of 100 nanoseconds
-- after the first of January 1601, to the tick, and the seconds that the program computes with fit a
-- signed 64-bit integer.
pub parse_file_time_cases :
    (text : String)
    → ((parse_file_time text ≡ none) × IsUnknown (trim_space (codes text)))
      ⊎ IsInstant (trim_space (codes text)) (parse_file_time text)
parse_file_time_cases text = elim (Bool-cases (is_never (trim_space (codes text)))) [
  | inl n ↦
      inl (parse_file_time-never text n, inl (is_never-IsNeverText (trim_space (codes text)) n))
  | inr o ↦ rw (parse_file_time-from_ticks text o) (
      from_ticks_cases (trim_space (codes text)) (parse_int (trim_space (codes text)))
        (not_never (trim_space (codes text)) o) refl)
]
