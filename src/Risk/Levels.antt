-- ===== src/Risk/Levels.antt =====
-- Levels, and how the score moves with the request.
use oiaf.Risk.Signals.{
  Implies, Milder, privileged_mono, far_mono, service_mono, spn_mono, old_privileged_mono,
  rank-points,
}
use oiaf.Base.{
  ◌+◌, ℕ, ◌≤◌, ℤ, pos, negsuc, Bool, true, false, not, String, ◌==◌, ◌≡◌, refl, arith,
  if◌then◌else◌, ltb_ℤ,
}
use oiaf.Types.Access.{AccessRequest}
use oiaf.Risk.{
  Thresholds, Tally, add_if, request_rules, account_rules, device_rules, tally, level, capped,
  score,
}

-- The place of a level in the order of severity.
abbrev pub severity : String → ℕ
severity l =
    if l == "low"
    then 0
    else if l == "elevated"
    then 1
    else if l == "high"
    then 2
    else if l == "very_high"
    then 3
    else 4

within_mono : (a b : ℕ) (k : ℤ) → a ≤ b → ltb_ℤ k (pos b) ≡ false → ltb_ℤ k (pos a) ≡ false
unfolding ltb_ℤ
within_mono a b (pos k) h e = ground arith
within_mono a b (negsuc k) h e = cc

severity_of_tests :
    (v w x y : Bool)
    → severity (
        if v
        then "low"
        else if w
        then "elevated"
        else if x
        then "high"
        else if y
        then "very_high"
        else "critical")
      ≡ (if v then 0 else if w then 1 else if x then 2 else if y then 3 else 4)
severity_of_tests true w x y = refl
severity_of_tests false true x y = refl
severity_of_tests false false true y = refl
severity_of_tests false false false true = refl
severity_of_tests false false false false = refl

-- Whatever the thresholds, in order or not, a higher score has no lower level.
pub severity-level_mono :
    (t : Thresholds) (a b : ℕ) → a ≤ b → severity (level t a) ≤ severity (level t b)
unfolding level
severity-level_mono t a b h = simp severity_of_tests (
    ground (
      arith,
      within_mono a b t.low h,
      within_mono a b t.elevated h,
      within_mono a b t.high h,
      within_mono a b t.very_high h,
    ))

capped_mono : (a b : ℕ) → a ≤ b → capped a ≤ capped b
unfolding capped
capped_mono a b h = ground arith

add_if_mono :
    (x y : Bool) (n : ℕ) (r : String) (s t : Tally)
    → Implies x y
    → s.score ≤ t.score
    → (add_if x n r s).score ≤ (add_if y n r t).score
unfolding add_if
add_if_mono x y n r s t i h = ground arith

-- Two rules of one kind, of which the points together do not fall.
add_two_mono :
    (u v w x : Bool) (m n : ℕ) (q r : String) (s t : Tally)
    → (if u then m else 0) + (if v then n else 0) ≤ (if w then m else 0) + (if x then n else 0)
    → s.score ≤ t.score
    → (add_if v n r (add_if u m q s)).score ≤ (add_if x n r (add_if w m q t)).score
unfolding add_if
add_two_mono u v w x m n q r s t i h = ground arith

not_mono : (x y : Bool) → Implies y x → Implies (not x) (not y)
not_mono x y h p = ground arith

module _ (a b : AccessRequest) (m : Milder a b) where
  request_rules_mono :
      (s t : Tally) → s.score ≤ t.score → (request_rules a s).score ≤ (request_rules b t).score
  unfolding request_rules
  request_rules_mono s t h =
      add_two_mono _ _ _ _ 20 30 _ _ _ _
        (rank-points "ntlm" "ldap_simple_bind_cleartext" _ _ 20 30 (omega arith) refl m.protocol)
        (add_if_mono _ _ 30 _ _ _ (far_mono a b m) (
          add_if_mono _ _ 15 _ _ _ (not_mono _ _ m.mfa) (
            add_two_mono _ _ _ _ 20 30 _ _ _ _
              (rank-points "high" "critical" _ _ 20 30 (omega arith) refl m.sensitivity)
              (add_if_mono _ _ 25 _ s t (privileged_mono a b m) h))))

  account_rules_mono :
      (s t : Tally) → s.score ≤ t.score → (account_rules a s).score ≤ (account_rules b t).score
  unfolding account_rules
  account_rules_mono s t h = add_if_mono _ _ 40 _ _ _ (old_privileged_mono a b m) (
      add_if_mono _ _ 25 _ _ _ (spn_mono a b m) (
        add_if_mono _ _ 15 _ _ _ m.password (
          add_if_mono _ _ 20 _ _ _ m.stale (
            add_if_mono _ _ 50 _ _ _ m.deviation
              (add_if_mono _ _ 60 _ s t (service_mono a b m) h)))))

  reputation_points :
      (if a.source.reputation == "bad" then 40 else 0)
        + (if a.source.reputation == "unknown" then 5 else 0)
      ≤ (if b.source.reputation == "bad" then 40 else 0)
        + (if b.source.reputation == "unknown" then 5 else 0)
  reputation_points =
      let r : (if a.source.reputation == "unknown" then 5 else 0)
            + (if a.source.reputation == "bad" then 40 else 0)
          ≤ (if b.source.reputation == "unknown" then 5 else 0)
            + (if b.source.reputation == "bad" then 40 else 0) =
        rank-points "unknown" "bad" _ _ 5 40 (omega arith) refl m.reputation in
      omega (arith, r)

  device_rules_mono :
      (s t : Tally) → s.score ≤ t.score → (device_rules a s).score ≤ (device_rules b t).score
  unfolding device_rules
  device_rules_mono s t h = add_two_mono _ _ _ _ 40 5 _ _ _ _ reputation_points (
      add_if_mono _ _ 25 _ _ _ (not_mono _ _ m.compliant)
        (add_if_mono _ _ 15 _ s t (not_mono _ _ m.managed) h))

  tally_mono : (tally a).score ≤ (tally b).score
  unfolding tally
  tally_mono = device_rules_mono _ _ (account_rules_mono _ _ (request_rules_mono _ _ (omega arith)))

  -- A request of which every risk signal is one of another, or a milder one of the same kind, has no
  -- higher score than the other, and no more severe level, under any thresholds.
  pub score_mono :
      (t : Thresholds)
      → ((score t a).score ≤ (score t b).score)
        × (severity (score t a).level ≤ severity (score t b).level)
  unfolding score
  score_mono t = let h = capped_mono _ _ tally_mono in (h, severity-level_mono t _ _ h)
