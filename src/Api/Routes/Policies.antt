-- ===== src/Api/Routes/Policies.antt =====
-- The policies of the HTTP interface: core/internal/api/api.go. The body of a request is what
-- `decodeJSON` gives.
use oiaf.Base.{String, Option, List}
use oiaf.Base.Action.{pure, ◌>>=◌, ◌>>◌}
use oiaf.Types.Access.{AccessRequest, PolicyDecision}
use oiaf.Types.Entities.{Time, Policy}
use oiaf.Storage.Policies as Stored
use oiaf.Policy as Engine
use oiaf.Policy.{EngineLib}
use oiaf.Api.{Request, missing, internal_error, call, body_or_400}

unfoldable pub handle_list_policies : Request (List Policy)
unfolding Stored.list
handle_list_policies = call (λ e. internal_error "failed to list policies") Stored.list

abbrev pub created : String → Time → Policy → Policy
created id now body = record body { id = id; created_at = now; updated_at = now }

unfoldable pub handle_create_policy : String → Time → Option Policy → Request Policy
unfolding Stored.create
handle_create_policy new_id now body = do
  p ← body_or_400 body
  call (λ e. internal_error "failed to create policy") (Stored.create (created new_id now p))
  pure (created new_id now p)

unfoldable pub handle_get_policy : String → Request Policy
unfolding Stored.get
handle_get_policy id = call (λ e. missing "policy not found") (Stored.get id)

-- The body replaces the policy, its conditions too, except for what names it.
abbrev pub updated : Time → Policy → Policy → Policy
updated now existing body = record body {
  id = existing.id;
  created_at = existing.created_at;
  updated_at = now;
}

unfoldable pub handle_update_policy : Time → String → Option Policy → Request Policy
unfolding Stored.get Stored.update
handle_update_policy now id body = do
  existing ← call (λ e. missing "policy not found") (Stored.get id)
  update ← body_or_400 body
  call (λ e. internal_error "failed to update policy") (Stored.update (updated now existing update))
  pure (updated now existing update)

unfoldable pub handle_delete_policy : String → Request Unit
unfolding Stored.delete
handle_delete_policy id = call (λ e. internal_error "failed to delete policy") (Stored.delete id)

-- The policy of the body is not read: the stored policies decide.
pub record TestBody : Type 0 where
  pub policy : Policy
  pub request : AccessRequest

unfoldable pub handle_test_policy : EngineLib → Option TestBody → Request PolicyDecision
unfolding Engine.evaluate
handle_test_policy lib body = do
  b ← body_or_400 body
  call (λ e. internal_error "policy evaluation failed") (Engine.evaluate lib b.request)
