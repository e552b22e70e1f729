-- ===== src/Storage/Policies.antt =====
-- Policies of `MemoryStore`: core/internal/storage/memory.go.
use oiaf.Base.{String, none, some, List}
use oiaf.Base.Table
use oiaf.Base.Action.{ok, err}
use oiaf.Types.Entities.{Policy}
use oiaf.Types.Errors.{not_found}
use oiaf.Storage.State.{Db, found_or}

unfoldable pub create : Policy → Db Unit
create policy s = (ok tt, record s { policies = Table.put s.policies policy.id policy })

unfoldable pub get : String → Db Policy
get id s = (found_or (Table.get s.policies id) id, s)

unfoldable pub list : Db (List Policy)
list s = (ok (Table.values s.policies), s)

-- A value whose key is not in the map is refused.
unfoldable pub update : Policy → Db Unit
update policy s = elim (Table.get s.policies policy.id) [
  | some _ ↦ (ok tt, record s { policies = Table.put s.policies policy.id policy })
  | none ↦ (err (not_found policy.id), s)
]

unfoldable pub delete : String → Db Unit
delete id s = (ok tt, record s { policies = Table.remove s.policies id })
