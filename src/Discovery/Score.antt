-- ===== src/Discovery/Score.antt =====
-- The score of a profile: core/internal/discovery/engine.go, `classify` and the five measures. The
-- operations of float64 are parameters.
use oiaf.Base.{ℕ, ℤ, ◌+◌, Bool, List, [], ◌∷◌, length, eqb, ltb, if◌then◌else◌}
use oiaf.Base.Table
use oiaf.Types.Entities.{Time}
use oiaf.Types.Directory.{BehaviouralProfile, Float64}

-- `hundredths n` is the constant n/100. `ceil` is `int(math.Ceil(x))`. `seconds_between t u` is
-- `t.Sub(u).Seconds()`, and `positive` the test `x > 0`.
pub record FloatLib : Type 0 where
  pub of_int : ℕ → Float64
  pub hundredths : ℕ → Float64
  pub add : Float64 → Float64 → Float64
  pub sub : Float64 → Float64 → Float64
  pub mul : Float64 → Float64 → Float64
  pub div : Float64 → Float64 → Float64
  pub log2 : Float64 → Float64
  pub ceil : Float64 → ℕ
  pub equal : Float64 → Float64 → Bool
  pub at_least : Float64 → Float64 → Bool
  pub positive : Float64 → Bool
  pub seconds_between : Time → Time → Float64

pub record Weights : Type 0 where
  pub temporal : Float64
  pub source : Float64
  pub target : Float64
  pub logon_type : Float64
  pub protocol : Float64
  pub ad_attrs : Float64

unfoldable pub default_weights : FloatLib → Weights
default_weights lib = record {
  temporal = lib.hundredths 25;
  source = lib.hundredths 20;
  target = lib.hundredths 20;
  logon_type = lib.hundredths 15;
  protocol = lib.hundredths 10;
  ad_attrs = lib.hundredths 10;
}

unfoldable pub sum : List ℕ → ℕ
sum [] = 0
sum (n ∷ r) = n + sum r

-- The loop over the hours, from the entropy so far.
unfoldable pub entropy_from : FloatLib → ℕ → Float64 → List ℕ → Float64
entropy_from lib total acc [] = acc
entropy_from lib total acc (v ∷ r) =
    let prob = lib.div (lib.of_int v) (lib.of_int total) in
    entropy_from lib total (if ltb 0 v then lib.sub acc (lib.mul prob (lib.log2 prob)) else acc) r

unfoldable pub temporal_regularity : FloatLib → BehaviouralProfile → Float64
temporal_regularity lib p =
    let total = sum p.time_of_day_histogram in
    let entropy = entropy_from lib total (lib.of_int 0) p.time_of_day_histogram in
    let max_entropy = lib.log2 (lib.of_int 24) in
    if eqb total 0
    then lib.of_int 0
    else if lib.equal max_entropy (lib.of_int 0)
    then lib.of_int 0
    else lib.sub (lib.of_int 1) (lib.div entropy max_entropy)

unfoldable pub source_consistency : FloatLib → BehaviouralProfile → Float64
source_consistency lib p =
    let n = length p.source_ips in
    if eqb n 0 then lib.of_int 0 else lib.div (lib.of_int 1) (lib.of_int n)

unfoldable pub target_consistency : FloatLib → BehaviouralProfile → Float64
target_consistency lib p =
    let n = length p.target_spns in
    if eqb n 0 then lib.of_int 1 else lib.div (lib.of_int 1) (lib.of_int n)

unfoldable pub greatest : ℕ → List ℕ → ℕ
greatest m [] = m
greatest m (v ∷ r) = greatest (if ltb m v then v else m) r

-- The share of the greatest count; 0 if nothing is counted.
unfoldable pub purity : FloatLib → List ℕ → Float64
purity lib counts =
    if eqb (sum counts) 0
    then lib.of_int 0
    else lib.div (lib.of_int (greatest 0 counts)) (lib.of_int (sum counts))

unfoldable pub int_counts : List (ℤ × ℕ) → List ℕ
int_counts [] = []
int_counts ((n, c) ∷ r) = c ∷ int_counts r

unfoldable pub logon_type_purity : FloatLib → BehaviouralProfile → Float64
logon_type_purity lib p = purity lib (int_counts p.logon_types)

unfoldable pub protocol_purity : FloatLib → BehaviouralProfile → Float64
unfolding Table.values
protocol_purity lib p = purity lib (Table.values p.auth_packages)

-- The weight of the attributes of the directory is not used.
unfoldable pub classify : FloatLib → Weights → BehaviouralProfile → Float64
unfolding temporal_regularity source_consistency target_consistency logon_type_purity
    protocol_purity
classify lib w p =
    lib.add
      (lib.add
        (lib.add
          (lib.add (lib.mul w.temporal (temporal_regularity lib p))
            (lib.mul w.source (source_consistency lib p)))
          (lib.mul w.target (target_consistency lib p)))
        (lib.mul w.logon_type (logon_type_purity lib p)))
      (lib.mul w.protocol (protocol_purity lib p))
