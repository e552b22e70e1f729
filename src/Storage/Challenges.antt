-- ===== src/Storage/Challenges.antt =====
-- Challenges of `MemoryStore`: core/internal/storage/memory.go.
use oiaf.Base.{String, none, some, List}
use oiaf.Base.Table
use oiaf.Base.Action.{ok, err}
use oiaf.Types.Entities.{Challenge}
use oiaf.Types.Errors.{not_found}
use oiaf.Storage.State.{Db, found_or}

unfoldable pub create : Challenge → Db Unit
create challenge s =
    (ok tt, record s { challenges = Table.put s.challenges challenge.id challenge })

unfoldable pub get : String → Db Challenge
get id s = (found_or (Table.get s.challenges id) id, s)

unfoldable pub list : Db (List Challenge)
list s = (ok (Table.values s.challenges), s)

-- A value whose key is not in the map is refused.
unfoldable pub update : Challenge → Db Unit
update challenge s = elim (Table.get s.challenges challenge.id) [
  | some _ ↦ (ok tt, record s { challenges = Table.put s.challenges challenge.id challenge })
  | none ↦ (err (not_found challenge.id), s)
]
