-- ===== src/Storage/Factors.antt =====
-- Factors of `MemoryStore`: core/internal/storage/memory.go.
use oiaf.Base.{String, ◌==◌, none, some, List, filter_by}
use oiaf.Base.Table
use oiaf.Base.Action.{ok, err}
use oiaf.Types.Entities.{Factor}
use oiaf.Types.Errors.{not_found}
use oiaf.Storage.State.{Db, found_or}

unfoldable pub create : Factor → Db Unit
create factor s = (ok tt, record s { factors = Table.put s.factors factor.id factor })

unfoldable pub get : String → Db Factor
get id s = (found_or (Table.get s.factors id) id, s)

unfoldable pub list_by_identity : String → Db (List Factor)
list_by_identity identity_id s =
    (ok (filter_by (λ v. v.identity_id == identity_id) (Table.values s.factors)), s)

-- A value whose key is not in the map is refused.
unfoldable pub update : Factor → Db Unit
update factor s = elim (Table.get s.factors factor.id) [
  | some _ ↦ (ok tt, record s { factors = Table.put s.factors factor.id factor })
  | none ↦ (err (not_found factor.id), s)
]

unfoldable pub delete : String → Db Unit
delete id s = (ok tt, record s { factors = Table.remove s.factors id })
