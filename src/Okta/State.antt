-- ===== src/Okta/State.antt =====
-- The adapter's cursor and memory: adapters/okta/state.go. `processed`, the index of `recent_uuids`,
-- is a table without values; `sort.Slice` is a parameter, and files are left out.
pub mod Eviction
use oiaf.Base.{
  ℕ, zero, suc, ◌+◌, ◌-◌, Bool, true, false, String, ◌==◌, Option, none, some, List, [], ◌∷◌, ◌++◌,
  length, take, leb, ltb, if◌then◌else◌,
}
use oiaf.Base.Table
use oiaf.Base.Table.{Table}
use oiaf.Types.Entities.{Time}
use oiaf.Types.Directory.{Float64}

pub record IdentityState : Type 0 where
  pub last_seen : Time
  pub last_geo : String
  pub geos : List String
  pub last_lat : Float64
  pub last_lon : Float64
  pub has_geo : Bool
  pub devices : List String
  pub mfa_fails : List Time
  pub admin : Bool

abbrev pub new_identity : IdentityState
new_identity = record {
  last_seen = 0;
  last_geo = "";
  geos = [];
  last_lat = 0;
  last_lon = 0;
  has_geo = false;
  devices = [];
  mfa_fails = [];
  admin = false;
}

pub record State : Type 0 where
  pub cursor : Time
  pub last_uuid : String
  pub recent_uuids : List String
  pub identities : Table IdentityState
  pub processed : Table (Unit {0})

abbrev pub max_recent_uuids : ℕ
max_recent_uuids = 4096

abbrev pub max_tracked_identities : ℕ
max_tracked_identities = 4096

abbrev pub max_devices_per_identity : ℕ
max_devices_per_identity = 32

abbrev pub max_geos_per_identity : ℕ
max_geos_per_identity = 16

abbrev pub max_mfa_fails_per_identity : ℕ
max_mfa_fails_per_identity = 32

abbrev pub new_state : State
new_state = record {
  cursor = 0;
  last_uuid = "";
  recent_uuids = [];
  identities = [];
  processed = [];
}

-- The index that a state has after it is read from its file.
unfoldable pub index_of : List String → Table (Unit {0})
index_of [] = []
index_of (u ∷ r) = Table.put (index_of r) u tt

unfoldable pub reindex : State → State
unfolding index_of
reindex st = record st { processed = index_of st.recent_uuids }

abbrev pub is_there : {V : Type 0} → Option V → Bool
is_there none = false
is_there (some v) = true

unfoldable pub already_processed : State → String → Bool
already_processed st uuid = if uuid == "" then false else is_there (Table.get st.processed uuid)

-- `xs[n:]`
unfoldable pub drop {ℓ} : {A : Type ℓ} → ℕ → List A → List A
drop zero xs = xs
drop (suc n) [] = []
drop (suc n) (x ∷ xs) = drop n xs

unfoldable pub remove_all : Table (Unit {0}) → List String → Table (Unit {0})
remove_all t [] = t
remove_all t (u ∷ r) = remove_all (Table.remove t u) r

-- The oldest entries leave the window and its index.
unfoldable pub trim_window : State → State
unfolding drop remove_all
trim_window st =
    let extra = length st.recent_uuids - max_recent_uuids in
    if ltb max_recent_uuids (length st.recent_uuids)
    then record st {
      processed = remove_all st.processed (take extra st.recent_uuids);
      recent_uuids = drop extra st.recent_uuids;
    }
    else st

unfoldable pub mark_processed : State → String → State
unfolding already_processed trim_window
mark_processed st uuid =
    if uuid == ""
    then st
    else if already_processed st uuid
    then st
    else trim_window (record st {
      recent_uuids = st.recent_uuids ++ uuid ∷ [];
      processed = Table.put st.processed uuid tt;
    })

-- The entries by the time when they were last seen, in some order among equals.
abbrev pub Sort : Type 0
Sort = List (String × Time) → List (String × Time)

unfoldable pub seen_times : Table IdentityState → List (String × Time)
seen_times [] = []
seen_times ((login, st) ∷ r) = (login, st.last_seen) ∷ seen_times r

-- The first `n` logins of the order are deleted.
unfoldable pub evict_first : ℕ → List (String × Time) → Table IdentityState → Table IdentityState
evict_first zero all t = t
evict_first (suc n) [] t = t
evict_first (suc n) ((login, seen) ∷ r) t = evict_first n r (Table.remove t login)

unfoldable pub evict_identities : Sort → Table IdentityState → Table IdentityState
unfolding seen_times evict_first
evict_identities sort t =
    if leb (length t) max_tracked_identities
    then t
    else evict_first (length t - max_tracked_identities) (sort (seen_times t)) t

-- The memory of a login and the state with it. A new memory is put into the map, which may drop it
-- again; the caller's pointer then leads to a memory outside of the map.
unfoldable pub identity : Sort → State → String → IdentityState × State
unfolding evict_identities
identity sort st login = elim (Table.get st.identities login) [
  | some id ↦ (id, st)
  | none ↦ (
    new_identity,
    record st { identities = evict_identities sort (Table.put st.identities login new_identity) },
  )
]

-- A write through the pointer that `identity` gave: seen in the map if the memory is there.
unfoldable pub write_identity : String → IdentityState → State → State
write_identity login id st = elim (Table.get st.identities login) [
  | some old ↦ record st { identities = Table.put st.identities login id }
  | none ↦ st
]
