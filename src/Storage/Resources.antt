-- ===== src/Storage/Resources.antt =====
-- Resources of `MemoryStore`: core/internal/storage/memory.go.
use oiaf.Base.{String, List}
use oiaf.Base.Table
use oiaf.Base.Action.{ok}
use oiaf.Types.Entities.{Resource}
use oiaf.Storage.State.{Db, found_or}

unfoldable pub create : Resource → Db Unit
create resource s = (ok tt, record s { resources = Table.put s.resources resource.id resource })

unfoldable pub get : String → Db Resource
get id s = (found_or (Table.get s.resources id) id, s)

unfoldable pub list : Db (List Resource)
list s = (ok (Table.values s.resources), s)

unfoldable pub delete : String → Db Unit
delete id s = (ok tt, record s { resources = Table.remove s.resources id })
