-- ===== src/Inventory.antt =====
-- The inventory of a directory's accounts: core/internal/inventory/scanner.go, `summarize`,
-- `upsertIdentity` and `Scan`. The LDAP client is a parameter: it gives the entries or an error.
pub mod FileTime
pub mod Entry
pub mod Counts
pub mod Instants
use oiaf.Base.{
  ℕ, ◌+◌, ◌-◌, ◌*◌, Bool, true, false, not, ◌&&◌, ◌||◌, String, ◌==◌, List, [], ◌∷◌, is_empty, ltb,
  eqb, map, if◌then◌else◌,
}
use oiaf.Base.Table
use oiaf.Base.Action.{Result, ok, err, Action, pure, lift, ◌>>=◌, ◌>>◌}
use oiaf.Types.Entities.{Time, Identity}
use oiaf.Types.Directory.{AdInventoryRecord, AdInventorySummary}
use oiaf.Types.Errors.{Error}
use oiaf.Storage.State.{Store, Db}
use oiaf.Storage.Identities
use Entry.{Attributes, parse_entry}

abbrev nanoseconds_per_day : ℕ
nanoseconds_per_day = 86400000000000

abbrev pub stale_threshold : ℕ
stale_threshold = 90 * nanoseconds_per_day

-- `t.Sub(u)` is a signed 64-bit number of nanoseconds, and stops at its greatest value. A negative
-- one is no greater than the threshold, and neither is 0.
abbrev max_duration : ℕ
max_duration = 9223372036854775807

abbrev time_sub : Time → Time → ℕ
time_sub t u = if ltb max_duration (t - u) then max_duration else t - u

unfoldable pub is_stale : Time → Time → Bool
is_stale now last_logon = not (eqb last_logon 0) && ltb stale_threshold (time_sub now last_logon)

abbrev count_if : Bool → ℕ → ℕ
count_if test n = if test then n + 1 else n

unfoldable pub tally : Time → AdInventorySummary → AdInventoryRecord → AdInventorySummary
tally now s rec = record {
  total_accounts = s.total_accounts + 1;
  user_accounts = count_if (rec.object_class == "user") s.user_accounts;
  computer_accounts = count_if (rec.object_class == "computer") s.computer_accounts;
  service_accounts = count_if (not (is_empty rec.spns) || rec.is_gmsa) s.service_accounts;
  privileged_accounts = count_if rec.is_privileged s.privileged_accounts;
  stale_accounts = count_if (is_stale now rec.last_logon_timestamp) s.stale_accounts;
  disabled_accounts = count_if (not rec.enabled) s.disabled_accounts;
  scanned_at = s.scanned_at;
}

-- The loop, from the counts so far.
unfoldable pub tally_all : Time → AdInventorySummary → List AdInventoryRecord → AdInventorySummary
tally_all now s [] = s
tally_all now s (rec ∷ r) = tally_all now (tally now s rec) r

abbrev pub no_accounts : Time → AdInventorySummary
no_accounts now = record {
  total_accounts = 0;
  user_accounts = 0;
  computer_accounts = 0;
  service_accounts = 0;
  privileged_accounts = 0;
  stale_accounts = 0;
  disabled_accounts = 0;
  scanned_at = now;
}

unfoldable pub summarize : List AdInventoryRecord → Time → AdInventorySummary
summarize records now = tally_all now (no_accounts now) records

unfoldable pub identity_type : AdInventoryRecord → String
identity_type rec =
    if rec.object_class == "computer"
    then "machine"
    else if not (is_empty rec.spns) || rec.is_gmsa
    then "service_account"
    else "person"

-- What the scan reads besides the directory: a clock, an identifier for each new identity, and
-- `Format(time.RFC3339)`.
pub record Scan : Type 0 where
  pub rfc3339 : Time → String
  pub now : AdInventoryRecord → Time
  pub new_id : AdInventoryRecord → String

abbrev format_bool : Bool → String
format_bool true = "true"
format_bool false = "false"

-- The attributes that the scanner owns, over the ones that are there.
unfoldable pub put_attributes : Scan → AdInventoryRecord → Table.Table String → Table.Table String
put_attributes scan rec t0 =
    let t1 = Table.put t0 "sid" rec.sid in
    let t2 = Table.put t1 "ou" rec.ou in
    let t3 = Table.put t2 "last_logon" (scan.rfc3339 rec.last_logon_timestamp) in
    let t4 = Table.put t3 "pwd_last_set" (scan.rfc3339 rec.pwd_last_set) in
    let t5 = Table.put t4 "enabled" (format_bool rec.enabled) in
    let t6 = Table.put t5 "has_spn" (format_bool (not (is_empty rec.spns))) in
    Table.put t6 "is_gmsa" (format_bool rec.is_gmsa)

unfoldable pub refreshed : Scan → AdInventoryRecord → Identity → Identity
refreshed scan rec existing = record existing {
  type = identity_type rec;
  privileged = rec.is_privileged;
  groups = rec.member_of;
  updated_at = scan.now rec;
  attributes = put_attributes scan rec existing.attributes;
}

unfoldable pub found_identity : Scan → AdInventoryRecord → Identity
found_identity scan rec = record {
  id = scan.new_id rec;
  username = rec.sam_account_name;
  display_name = rec.display_name;
  type = identity_type rec;
  groups = rec.member_of;
  email = "";
  privileged = rec.is_privileged;
  usual_geo = "";
  attributes = put_attributes scan rec [];
  created_at = scan.now rec;
  updated_at = scan.now rec;
}

unfoldable pub upsert_identity : Scan → AdInventoryRecord → Db Unit
unfolding Identities.get_by_username Identities.update Identities.create
upsert_identity scan rec s = elim ((Identities.get_by_username rec.sam_account_name s).0) [
  | ok existing ↦ Identities.update (refreshed scan rec existing) s
  | err e ↦ Identities.create (found_identity scan rec) s
]

unfoldable pub upsert_all : Scan → List AdInventoryRecord → Db Unit
upsert_all scan [] = pure tt
upsert_all scan (rec ∷ r) = upsert_identity scan rec >> upsert_all scan r

-- The search of the directory fails or gives its entries. An error of the store comes with the
-- summary, which the caller does not read then.
unfoldable pub scan_directory : Scan → Time → Result Error (List Attributes) → Db AdInventorySummary
scan_directory scan now fetched = do
  entries ← lift fetched
  let records = map parse_entry entries
  upsert_all scan records
  pure (summarize records now)
