-- ===== src/Storage/Profiles.antt =====
-- Profiles of `MemoryStore`: core/internal/storage/memory.go.
use oiaf.Base.{String, List}
use oiaf.Base.Table
use oiaf.Base.Action.{ok}
use oiaf.Types.Directory.{BehaviouralProfile}
use oiaf.Storage.State.{Db, found_or}

unfoldable pub upsert : BehaviouralProfile → Db Unit
upsert profile s = (
  ok tt,
  record s { behavioural_profiles = Table.put s.behavioural_profiles profile.account_sid profile },
)

unfoldable pub get : String → Db BehaviouralProfile
get id s = (found_or (Table.get s.behavioural_profiles id) id, s)

unfoldable pub list : Db (List BehaviouralProfile)
list s = (ok (Table.values s.behavioural_profiles), s)

unfoldable pub delete : String → Db Unit
delete id s = (ok tt, record s { behavioural_profiles = Table.remove s.behavioural_profiles id })
