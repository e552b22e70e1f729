-- ===== src/Inventory/Counts.antt =====
-- What core/internal/inventory/scanner.go's `summarize` counts.
use oiaf.Base.{
  ℕ, ◌+◌, ◌<◌, ◌≡◌, Bool, true, not, ◌||◌, ◌==◌, ◌↔◌, List, [], ◌∷◌, is_empty, filter_by, length,
  arith, if◌then◌else◌,
}
use oiaf.Types.Entities.{Time}
use oiaf.Types.Directory.{AdInventoryRecord, AdInventorySummary}
use oiaf.Inventory.{is_stale, stale_threshold, tally, tally_all, summarize, no_accounts}

-- The number of records that pass a test.
abbrev pub amount : (AdInventoryRecord → Bool) → List AdInventoryRecord → ℕ
amount test rs = length (filter_by test rs)

abbrev pub is_service : AdInventoryRecord → Bool
is_service rec = not (is_empty rec.spns) || rec.is_gmsa

-- The summary `t` is `s` with the records of each kind counted separately.
pub record Counted (now : Time) (s : AdInventorySummary) (rs : List AdInventoryRecord)
    (t : AdInventorySummary) : Type 0 where
  pub total : t.total_accounts ≡ s.total_accounts + length rs
  pub users : t.user_accounts ≡ s.user_accounts + amount (λ rec. rec.object_class == "user") rs
  pub computers :
      t.computer_accounts ≡ s.computer_accounts + amount (λ rec. rec.object_class == "computer") rs
  pub services : t.service_accounts ≡ s.service_accounts + amount is_service rs
  pub privileged :
      t.privileged_accounts ≡ s.privileged_accounts + amount (λ rec. rec.is_privileged) rs
  pub stale :
      t.stale_accounts ≡ s.stale_accounts + amount (λ rec. is_stale now rec.last_logon_timestamp) rs
  pub disabled : t.disabled_accounts ≡ s.disabled_accounts + amount (λ rec. not rec.enabled) rs

amount-cons :
    (test : AdInventoryRecord → Bool) (n m : ℕ) (rec : AdInventoryRecord)
    (rs : List AdInventoryRecord)
    → m ≡ (if test rec then n + 1 else n) + amount test rs
    → m ≡ n + amount test (rec ∷ rs)
unfolding filter_by
amount-cons test n m rec rs e = ground arith

tally_all-Counted :
    (now : Time) (s : AdInventorySummary) (rs : List AdInventoryRecord)
    → Counted now s rs (tally_all now s rs)
unfolding tally_all tally filter_by
tally_all-Counted now s [] = record {
  total = omega arith;
  users = omega arith;
  computers = omega arith;
  services = omega arith;
  privileged = omega arith;
  stale = omega arith;
  disabled = omega arith;
}
tally_all-Counted now s (rec ∷ rs) =
    let h = tally_all-Counted now (tally now s rec) rs in
    record {
      total = omega (arith, h.total);
      users = amount-cons (λ rec. rec.object_class == "user") _ _ rec rs h.users;
      computers = amount-cons (λ rec. rec.object_class == "computer") _ _ rec rs h.computers;
      services = amount-cons is_service _ _ rec rs h.services;
      privileged = amount-cons (λ rec. rec.is_privileged) _ _ rec rs h.privileged;
      stale = amount-cons (λ rec. is_stale now rec.last_logon_timestamp) _ _ rec rs h.stale;
      disabled = amount-cons (λ rec. not rec.enabled) _ _ rec rs h.disabled;
    }

-- An account is stale exactly if its last logon is known and lies more than ninety days back; the
-- 64-bit difference of the times, which stops at its greatest value, decides as the exact one does.
is_stale_iff :
    (now last_logon : Time)
    → is_stale now last_logon ≡ true ↔ (0 < last_logon) × (last_logon + stale_threshold < now)
unfolding is_stale
is_stale_iff now last_logon = (λ h. ground arith, λ (p, q). ground arith)

abbrev pub StaleFor : Time → AdInventoryRecord → Type 0
StaleFor now rec =
    (0 < rec.last_logon_timestamp) × (rec.last_logon_timestamp + stale_threshold < now)

-- The summary of a scan counts, for each kind, exactly the records of that kind: all the records,
-- the users, the computers, the accounts with a service principal name or a managed password, the
-- privileged ones, the disabled ones, and the stale ones, which are those whose last logon is known
-- and lies more than ninety days before the time of the scan.
pub summarize-Counted :
    (rs : List AdInventoryRecord) (now : Time)
    → Counted now (no_accounts now) rs (summarize rs now)
      × ((rec : AdInventoryRecord)
          → is_stale now rec.last_logon_timestamp ≡ true ↔ StaleFor now rec)
unfolding summarize
summarize-Counted rs now =
    (tally_all-Counted now (no_accounts now) rs, λ rec. is_stale_iff now rec.last_logon_timestamp)
