-- ===== src/Storage/AuthTokens.antt =====
-- AuthTokens of `MemoryStore`: core/internal/storage/memory.go.
use oiaf.Base.{true, String, ◌==◌, Option, none, some, List, [], ◌∷◌, if◌then◌else◌}
use oiaf.Base.Table
use oiaf.Base.Action.{ok, err}
use oiaf.Types.Entities.{AuthToken}
use oiaf.Types.Errors.{not_found}
use oiaf.Storage.State.{Db, found_or}

unfoldable pub create : AuthToken → Db Unit
create token s = (ok tt, record s { auth_tokens = Table.put s.auth_tokens token.id token })

unfoldable pub list : Db (List AuthToken)
list s = (ok (Table.values s.auth_tokens), s)

-- The first token with this hash, in the order of the range.
first_by_hash : String → List AuthToken → Option AuthToken
first_by_hash hash [] = none
first_by_hash hash (v ∷ r) =
    let rest = first_by_hash hash r in if v.token_hash == hash then some v else rest

unfoldable pub get_by_hash : String → Db AuthToken
unfolding first_by_hash
get_by_hash hash s = (found_or (first_by_hash hash (Table.values s.auth_tokens)) hash, s)

-- `v.Revoked = true` writes the shared token.
unfoldable pub revoke : String → Db Unit
revoke id s = elim (Table.get s.auth_tokens id) [
  | some v ↦
      (ok tt, record s { auth_tokens = Table.put s.auth_tokens id (record v { revoked = true }) })
  | none ↦ (err (not_found id), s)
]
