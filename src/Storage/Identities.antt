-- ===== src/Storage/Identities.antt =====
-- Identities of `MemoryStore`: core/internal/storage/memory.go.
use oiaf.Base.{String, ◌==◌, Option, none, some, List, [], ◌∷◌, if◌then◌else◌}
use oiaf.Base.Table
use oiaf.Base.Action.{ok, err}
use oiaf.Types.Entities.{Identity}
use oiaf.Types.Errors.{not_found}
use oiaf.Storage.State.{Db, found_or}

unfoldable pub create : Identity → Db Unit
create identity s = (ok tt, record s { identities = Table.put s.identities identity.id identity })

unfoldable pub get : String → Db Identity
get id s = (found_or (Table.get s.identities id) id, s)

unfoldable pub list : Db (List Identity)
list s = (ok (Table.values s.identities), s)

-- The first value with this name, in the order of the range.
first_by_username : String → List Identity → Option Identity
first_by_username username [] = none
first_by_username username (v ∷ r) =
    let rest = first_by_username username r in if v.username == username then some v else rest

unfoldable pub get_by_username : String → Db Identity
unfolding first_by_username
get_by_username username s =
    (found_or (first_by_username username (Table.values s.identities)) username, s)

-- A value whose key is not in the map is refused.
unfoldable pub update : Identity → Db Unit
update identity s = elim (Table.get s.identities identity.id) [
  | some _ ↦ (ok tt, record s { identities = Table.put s.identities identity.id identity })
  | none ↦ (err (not_found identity.id), s)
]

unfoldable pub delete : String → Db Unit
delete id s = (ok tt, record s { identities = Table.remove s.identities id })
