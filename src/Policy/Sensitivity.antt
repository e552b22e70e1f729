-- ===== src/Policy/Sensitivity.antt =====
-- The sensitivity that core/internal/policy/engine.go allows where no policy matches.
use oiaf.Base.{
  ℕ, true, String, ◌≡◌, refl, ◌⊎◌, List, [], ◌∷◌, arith, codes, map, bytes_eq, bytes_eq→eq,
}
use oiaf.Policy.{is_sensitivity}
use oiaf.Policy.Values.{lower}

-- A letter, small or capital.
abbrev pub IsLetter : ℕ → ℕ → ℕ → Type 0
IsLetter small capital a = (a ≡ small) ⊎ (a ≡ capital)

-- The three letters of "low", each small or capital.
abbrev pub IsLow : List ℕ → Type 0
IsLow (a ∷ (b ∷ (c ∷ []))) = IsLetter b'l' b'L' a × IsLetter b'o' b'O' b × IsLetter b'w' b'W' c
IsLow _ = ⊥

lower-IsLow : (s : List ℕ) → map lower s ≡ codes "low" → IsLow s
unfolding lower
lower-IsLow [] h = cc
lower-IsLow (a ∷ []) h = cc
lower-IsLow (a ∷ (b ∷ [])) h = cc
lower-IsLow (a ∷ (b ∷ (c ∷ []))) h =
    let la : lower a ≡ 108 = cc h in
    let lb : lower b ≡ 111 = cc h in
    let lc : lower c ≡ 119 = cc h in (ground (arith, la), ground (arith, lb), ground (arith, lc))
lower-IsLow (a ∷ (b ∷ (c ∷ (d ∷ r)))) h = cc

IsLow-lower : (s : List ℕ) → IsLow s → map lower s ≡ codes "low"
unfolding lower
IsLow-lower [] h = absurd h
IsLow-lower (a ∷ []) h = absurd h
IsLow-lower (a ∷ (b ∷ [])) h = absurd h
IsLow-lower (a ∷ (b ∷ (c ∷ (d ∷ r)))) h = absurd h
IsLow-lower (a ∷ (b ∷ (c ∷ []))) (ha, hb, hc) =
    let la : lower a ≡ 108 = ground (arith, ha) in
    let lb : lower b ≡ 111 = ground (arith, hb) in
    let lc : lower c ≡ 119 = ground (arith, hc) in cc (la, lb, lc)

pub is_sensitivity-IsLow : (s : String) → is_sensitivity "low" s ≡ true → IsLow (codes s)
unfolding is_sensitivity
is_sensitivity-IsLow s h = lower-IsLow (codes s) (bytes_eq→eq (map lower (codes s)) (codes "low") h)

pub IsLow-is_sensitivity : (s : String) → IsLow (codes s) → is_sensitivity "low" s ≡ true
unfolding is_sensitivity bytes_eq
IsLow-is_sensitivity s h = rw (IsLow-lower (codes s) h) refl
