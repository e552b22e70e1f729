-- ===== src/Storage/Adapters.antt =====
-- Adapters of `MemoryStore`: core/internal/storage/memory.go.
use oiaf.Base.{String, List}
use oiaf.Base.Table
use oiaf.Base.Action.{ok}
use oiaf.Types.Entities.{Adapter}
use oiaf.Storage.State.{Db, found_or}

unfoldable pub create : Adapter → Db Unit
create adapter s = (ok tt, record s { adapters = Table.put s.adapters adapter.id adapter })

unfoldable pub get : String → Db Adapter
get id s = (found_or (Table.get s.adapters id) id, s)

unfoldable pub list : Db (List Adapter)
list s = (ok (Table.values s.adapters), s)

unfoldable pub delete : String → Db Unit
delete id s = (ok tt, record s { adapters = Table.remove s.adapters id })
