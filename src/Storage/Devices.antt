-- ===== src/Storage/Devices.antt =====
-- Devices of `MemoryStore`: core/internal/storage/memory.go.
use oiaf.Base.{String, ◌==◌, List, filter_by}
use oiaf.Base.Table
use oiaf.Base.Action.{ok}
use oiaf.Types.Entities.{Device}
use oiaf.Storage.State.{Db, found_or}

unfoldable pub create : Device → Db Unit
create device s = (ok tt, record s { devices = Table.put s.devices device.id device })

unfoldable pub get : String → Db Device
get id s = (found_or (Table.get s.devices id) id, s)

unfoldable pub list : Db (List Device)
list s = (ok (Table.values s.devices), s)

unfoldable pub list_by_identity : String → Db (List Device)
list_by_identity identity_id s =
    (ok (filter_by (λ v. v.identity_id == identity_id) (Table.values s.devices)), s)

unfoldable pub delete : String → Db Unit
delete id s = (ok tt, record s { devices = Table.remove s.devices id })
