-- ===== src/Policy/Request.antt =====
-- `requestToMap` and `resolvePath` of core/internal/policy/engine.go: the access request as the map
-- that its JSON decodes to, by the tags of core/internal/types/types.go.
use oiaf.Base.{
  ℕ, ℤ, pos, zero, Bool, true, false, String, ◌==◌, Option, none, some, List, [], ◌∷◌, codes,
  bytes_eq, map, is_empty, if◌then◌else◌,
}
use oiaf.Types.Access.{AccessRequest, AccessIdentity, AccessSource}
use oiaf.Json.{integer, Json, Fields, bool, number, string, array, object, end, field, of_list}
use oiaf.Policy.Values.{split}

-- A field with `omitempty` is left out if its value is empty.
abbrev omit_empty : Bool → String → Json → Fields → Fields
omit_empty is_zero k j r = if is_zero then r else field k j r

abbrev is_false : Bool → Bool
is_false true = false
is_false false = true

abbrev is_zero : ℤ → Bool
is_zero (pos zero) = true
is_zero _ = false

unfoldable pub identity_fields : AccessIdentity → Fields
identity_fields x = field "username" (string x.username) (
    omit_empty (is_empty x.groups) "groups" (array (of_list (map (λ g. string g) x.groups))) (
      field "type" (string x.type) (
        omit_empty (is_false x.privileged) "privileged" (bool x.privileged) (
          omit_empty (x.usual_geo == "") "usual_geo" (string x.usual_geo) (
            omit_empty (is_zero x.last_logon_days) "last_logon_days"
              (number (integer x.last_logon_days))
              (omit_empty (is_false x.password_never_expires) "password_never_expires"
                (bool x.password_never_expires)
                (omit_empty (is_false x.has_spn) "has_spn" (bool x.has_spn)
                  (omit_empty (is_false x.is_gmsa) "is_gmsa" (bool x.is_gmsa) end))))))))

unfoldable pub source_fields : AccessSource → Fields
source_fields x = omit_empty (x.ip == "") "ip" (string x.ip) (
    omit_empty (x.geo == "") "geo" (string x.geo)
      (omit_empty (x.reputation == "") "reputation" (string x.reputation) end))

unfoldable pub request_to_map : AccessRequest → Json
unfolding identity_fields source_fields
request_to_map req =
    let resource = field "type" (string req.resource.type) (
      field "name" (string req.resource.name)
        (field "sensitivity" (string req.resource.sensitivity) end)) in
    let device =
      field "managed" (bool req.device.managed)
        (field "compliant" (bool req.device.compliant) end) in
    let context = field "mfa_recent" (bool req.context.mfa_recent) (
      field "interactive" (bool req.context.interactive)
        (field "baseline_deviation" (bool req.context.baseline_deviation) end)) in
    object (
      field "identity" (object (identity_fields req.identity)) (
        field "resource" (object resource) (
          field "protocol" (object (field "name" (string req.protocol.name) end)) (
            field "source" (object (source_fields req.source))
              (field "device" (object device) (field "context" (object context) end))))))

-- `v[part]` on a map whose keys are all different
unfoldable pub lookup : List ℕ → Fields → Option Json
lookup part end = none
lookup part (field k j r) =
    let rest = lookup part r in if bytes_eq (codes k) part then some j else rest

-- One step of the loop of `resolvePath`; only a map has parts.
abbrev pub part_of : Json → List ℕ → Option Json
unfolding lookup
part_of (object r) part = lookup part r
part_of _ part = none

unfoldable pub resolve_parts : Json → List (List ℕ) → Option Json
resolve_parts current [] = some current
resolve_parts current (part ∷ r) = elim (part_of current part) [
  | none ↦ none
  | some val ↦ resolve_parts val r
]

unfoldable pub resolve_path : Json → String → Option Json
unfolding split
resolve_path m path = resolve_parts m (split b'.' (codes path))
