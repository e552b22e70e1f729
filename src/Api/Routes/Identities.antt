-- ===== src/Api/Routes/Identities.antt =====
-- The identities of the HTTP interface: core/internal/api/api.go. The body of a request is what
-- `decodeJSON` gives.
use oiaf.Base.{String, Option, List}
use oiaf.Base.Action.{pure, ◌>>=◌, ◌>>◌}
use oiaf.Types.Entities.{Time, Identity}
use oiaf.Storage.Identities as Stored
use oiaf.Api.{Request, missing, internal_error, call, body_or_400}

unfoldable pub handle_list_identities : Request (List Identity)
unfolding Stored.list
handle_list_identities = call (λ e. internal_error "failed to list identities") Stored.list

-- The identifier and the time are the server's.
abbrev pub created : String → Time → Identity → Identity
created id now body = record body { id = id; created_at = now; updated_at = now }

unfoldable pub handle_create_identity : String → Time → Option Identity → Request Identity
unfolding Stored.create
handle_create_identity new_id now body = do
  identity ← body_or_400 body
  call (λ e. internal_error "failed to create identity")
      (Stored.create (created new_id now identity))
  pure (created new_id now identity)

unfoldable pub handle_get_identity : String → Request Identity
unfolding Stored.get
handle_get_identity id = call (λ e. missing "identity not found") (Stored.get id)

-- The body replaces the identity, except for what names it.
abbrev pub updated : Time → Identity → Identity → Identity
updated now existing body = record body {
  id = existing.id;
  created_at = existing.created_at;
  updated_at = now;
}

unfoldable pub handle_update_identity : Time → String → Option Identity → Request Identity
unfolding Stored.get Stored.update
handle_update_identity now id body = do
  existing ← call (λ e. missing "identity not found") (Stored.get id)
  update ← body_or_400 body
  call (λ e. internal_error "failed to update identity")
      (Stored.update (updated now existing update))
  pure (updated now existing update)

unfoldable pub handle_delete_identity : String → Request Unit
unfolding Stored.delete
handle_delete_identity id =
    call (λ e. internal_error "failed to delete identity") (Stored.delete id)
