-- ===== src/Api/Routes/Adapters.antt =====
-- The adapters of the HTTP interface: core/internal/api/api.go.
use oiaf.Base.{Bool, String, Option, List}
use oiaf.Base.Action.{pure, lift, ◌>>=◌, ◌>>◌}
use oiaf.Types.Entities.{Time, Adapter}
use oiaf.Storage.Adapters as Stored
use oiaf.Auth.{Bcrypt, generate_token, hash_token}
use oiaf.Api.{Request, missing, internal_error, call, body_or_400}

unfoldable pub handle_list_adapters : Request (List Adapter)
unfolding Stored.list
handle_list_adapters = call (λ e. internal_error "failed to list adapters") Stored.list

pub record AdapterBody : Type 0 where
  pub name : String
  pub type : String
  pub enabled : Bool

abbrev new_adapter : String → Time → String → AdapterBody → Adapter
new_adapter id now hash body = record {
  id = id;
  name = body.name;
  type = body.type;
  token_hash = hash;
  enabled = body.enabled;
  created_at = now;
}

-- The adapter with its token; the store keeps the hash only.
unfoldable pub handle_create_adapter :
    Bcrypt → String → Time → Option String → Option AdapterBody → Request (Adapter × String)
unfolding generate_token hash_token Stored.create
handle_create_adapter b new_id now random body = do
  a ← body_or_400 body
  token ← call (λ e. internal_error "failed to generate token") (lift (generate_token random))
  hash ← call (λ e. internal_error "failed to hash token") (lift (hash_token b token))
  call (λ e. internal_error "failed to create adapter")
      (Stored.create (new_adapter new_id now hash a))
  pure (new_adapter new_id now hash a, token)

unfoldable pub handle_get_adapter : String → Request Adapter
unfolding Stored.get
handle_get_adapter id = call (λ e. missing "adapter not found") (Stored.get id)

unfoldable pub handle_delete_adapter : String → Request Unit
unfolding Stored.delete
handle_delete_adapter id = call (λ e. internal_error "failed to delete adapter") (Stored.delete id)

-- `adapter.TokenHash = hash` writes the shared adapter, and `Create` stores it again.
unfoldable pub handle_rotate_adapter_token :
    Bcrypt → Option String → String → Request (Adapter × String)
unfolding generate_token hash_token Stored.get Stored.create
handle_rotate_adapter_token b random id = do
  adapter ← call (λ e. missing "adapter not found") (Stored.get id)
  token ← call (λ e. internal_error "failed to generate token") (lift (generate_token random))
  hash ← call (λ e. internal_error "failed to hash token") (lift (hash_token b token))
  let rotated : Adapter = record adapter { token_hash = hash }
  call (λ e. internal_error "failed to update adapter") (Stored.create rotated)
  pure (rotated, token)
