-- ===== src/Policy.antt =====
-- The builtin policy engine: core/internal/policy/engine.go. `sort.Slice` is a parameter, once for
-- each type that it sorts: it is not stable, so what it makes of ties is not determined.
pub mod Values
pub mod Request
pub mod Conditions
pub mod Sorting
pub mod Sensitivity
pub mod Precedence
use Prim.Native.String
use oiaf.Base.{
  ℕ, suc, ltb_ℤ, Bool, true, false, ◌||◌, String, Option, none, some, List, [], ◌∷◌, codes,
  bytes_eq, ltb, map, filter_by, if◌then◌else◌,
}
use oiaf.Base.Action.{Result, ok, err, pure, ◌>>=◌, ◌>>◌}
use oiaf.Types.Enums.{Decision}
use oiaf.Types.Access.{AccessRequest, PolicyDecision}
use oiaf.Types.Entities.{Policy}
use oiaf.Storage.State.{Store, Db}
use oiaf.Storage.Policies
use oiaf.Json.{Json, size}
use oiaf.Policy.Values.{GoLib, lower}
use oiaf.Policy.Request.{request_to_map}
use oiaf.Policy.Conditions.{ConditionError, type_mismatch, evaluate_conditions}

pub record EngineLib : Type 0 where
  pub go : GoLib
  pub sort_policies : (Policy → Policy → Bool) → List Policy → List Policy
  pub sort_decisions :
      (PolicyDecision → PolicyDecision → Bool) → List PolicyDecision → List PolicyDecision

-- An absent condition is an empty text, which is no JSON.
abbrev raw_conditions : GoLib → Option Json → Json → Result ConditionError Bool
raw_conditions lib none m = err type_mismatch
raw_conditions lib (some raw) m = evaluate_conditions lib (suc (size raw)) raw m

-- A policy whose conditions give an error is passed over.
abbrev holds : Result ConditionError Bool → Bool
holds (ok b) = b
holds (err e) = false

unfoldable pub matches : GoLib → Json → Policy → Bool
matches lib m p = holds (raw_conditions lib p.conditions m)

abbrev pub decision_of : Policy → PolicyDecision
decision_of p = record {
  effect = p.effect;
  policy_id = p.id;
  reasons = String.◌++◌ "policy " (String.◌++◌ p.id " matched") ∷ [];
  challenge = p.challenge;
}

-- `order[effect]`: an effect that is not in the map gives zero.
unfoldable pub order : Decision → ℕ
order Decision.deny = 0
order Decision.challenge = 1
order Decision.alert = 2
order Decision.allow = 3
order (Decision.other s) = 0

abbrev pub is_higher : Policy → Policy → Bool
is_higher p q = ltb_ℤ q.priority p.priority

abbrev pub is_stricter : PolicyDecision → PolicyDecision → Bool
is_stricter a b = ltb (order a.effect) (order b.effect)

abbrev by_default : Decision → String → PolicyDecision
by_default d reason = record { effect = d; policy_id = ""; reasons = reason ∷ []; challenge = none }

-- `strings.ToLower(sensitivity) == word`
unfoldable pub is_sensitivity : String → String → Bool
is_sensitivity word sensitivity = bytes_eq (map lower (codes sensitivity)) (codes word)

unfoldable pub default_decision : String → PolicyDecision
default_decision sens =
    if is_sensitivity "high" sens || is_sensitivity "critical" sens
    then by_default Decision.deny "default deny for high/critical sensitivity resource"
    else if is_sensitivity "low" sens
    then by_default Decision.allow "default allow for low sensitivity resource"
    else by_default Decision.deny "no policy matched"

-- `matched[0]` of a list that is not empty
abbrev pub first_or : PolicyDecision → List PolicyDecision → PolicyDecision
first_or d [] = d
first_or d (x ∷ r) = x

unfoldable pub conclude : EngineLib → String → List PolicyDecision → PolicyDecision
conclude lib sens [] = default_decision sens
conclude lib sens (d ∷ r) = first_or d (lib.sort_decisions is_stricter (d ∷ r))

unfoldable pub evaluate : EngineLib → AccessRequest → Db PolicyDecision
unfolding Policies.list
evaluate lib req = do
  policies ← Policies.list
  let enabled = lib.sort_policies is_higher (filter_by (λ p. p.enabled) policies)
  let m = request_to_map req
  let matched = map decision_of (filter_by (matches lib.go m) enabled)
  pure (conclude lib req.resource.sensitivity matched)
