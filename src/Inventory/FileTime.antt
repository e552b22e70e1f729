-- ===== src/Inventory/FileTime.antt =====
-- Windows file times: core/internal/inventory/scanner.go, `parseFileTime`. `none` is the zero time;
-- another instant is its Unix time in seconds, which may be negative, and the nanoseconds after it.
use oiaf.Base.{
  ℕ, ℤ, pos, negsuc, ◌+◌, ◌-◌, ◌*◌, Bool, ◌||◌, String, Option, none, some, List, is_empty, eqb,
  leb, codes, bytes_eq, if◌then◌else◌,
}
use Prim.Native.Nat.{◌/◌, ◌%◌}
use oiaf.Types.Entities.{Time}
use oiaf.Strconv.{Parsed, value, range, syntax, parse_int, trim_space}

abbrev pub file_time_unix_delta : ℕ
file_time_unix_delta = 11644473600

abbrev pub ticks_per_second : ℕ
ticks_per_second = 10000000

-- `a - b`
unfoldable pub difference : ℕ → ℕ → ℤ
difference a b = if leb b a then pos (a - b) else negsuc (b - a - 1)

pub record UnixTime : Type 0 where
  pub seconds : ℤ
  pub nanoseconds : ℕ

-- From a number of ticks above 0.
unfoldable pub unix_time : ℕ → UnixTime
unix_time ft = record {
  seconds = difference (ft / ticks_per_second) file_time_unix_delta;
  nanoseconds = ft % ticks_per_second * 100;
}

unfoldable pub is_never : List ℕ → Bool
is_never s = is_empty s || bytes_eq s (codes "0") || bytes_eq s (codes "9223372036854775807")

unfoldable pub from_ticks : Parsed ℤ → Option UnixTime
from_ticks (value (pos ft)) = if eqb ft 0 then none else some (unix_time ft)
from_ticks (value (negsuc n)) = none
from_ticks (range n) = none
from_ticks syntax = none

unfoldable pub parse_file_time : String → Option UnixTime
unfolding from_ticks
parse_file_time text =
    let s = trim_space (codes text) in if is_never s then none else from_ticks (parse_int s)

-- `time.Unix(sec, nsec)` as the nanoseconds since the first of January of the year 1, where the
-- zero time is 0.
abbrev pub unix_epoch : ℕ
unix_epoch = 62135596800

unfoldable pub instant : Option UnixTime → Time
instant none = 0
instant (some t) = elim t.seconds [
  | pos n ↦ (unix_epoch + n) * 1000000000 + t.nanoseconds
  | negsuc n ↦ (unix_epoch - (n + 1)) * 1000000000 + t.nanoseconds
]
