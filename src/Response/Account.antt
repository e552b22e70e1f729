-- ===== src/Response/Account.antt =====
-- What adapters/ad-response/actions.go leaves in the account of a directory that answers.
use oiaf.Base.{
  sym, ◌∙◌, ℤ, pos, negsuc, ◌≡◌, refl, ap, Bool, true, false, String, List, [], ◌∷◌, arith,
}
use oiaf.Base.Action.{ok}
use oiaf.Fmt.{print_int, scan_int}
use oiaf.Fmt.Scan.{IsInt64, scan-print}
use oiaf.Inventory.Entry.{has_disable_bit}
use oiaf.Response.{
  Ldap, Entry, Config, DecisionWebhook, replace, or_disable, and_not_disable, connect, sid_request,
  uac_request, dn_from_sid, get_uac, set_uac, disable_account, enable_account, perform, handle,
  result_of,
}

or_disable-has_disable_bit : (n : ℤ) → has_disable_bit (or_disable n) ≡ true
unfolding or_disable has_disable_bit
or_disable-has_disable_bit (pos n) = ground arith
or_disable-has_disable_bit (negsuc n) = ground arith

and_not-or_disable : (n : ℤ) → has_disable_bit n ≡ false → and_not_disable (or_disable n) ≡ n
unfolding or_disable and_not_disable has_disable_bit
and_not-or_disable (pos n) h = ap pos (ground (arith, h))
and_not-or_disable (negsuc n) h = ap negsuc (ground (arith, h))

or_disable-IsInt64 : (n : ℤ) → IsInt64 n → IsInt64 (or_disable n)
unfolding or_disable
or_disable-IsInt64 (pos n) h = ground (arith, h)
or_disable-IsInt64 (negsuc n) h = ground (arith, h)

-- A directory that lets the adapter in, in which the account of an identifier has a name, and whose
-- `userAccountControl` can be read and written.
pub record Serves {D : Type 0} (l : Ldap D) (cfg : Config) (sid dn : String) (uac : D → String)
    : Type 0 where
  pub dials : (tls : Bool) (d : D) → l.dial_url tls cfg.ldap_url d ≡ (ok tt, d)
  pub binds : (d : D) → l.bind cfg.bind_dn cfg.bind_password d ≡ (ok tt, d)
  pub finds :
      (d : D)
      → (e : Entry) × (r : List Entry) × (l.search (sid_request l sid) d ≡ (ok (e ∷ r), d))
        × (e.dn ≡ dn)
  pub reads :
      (d : D)
      → (e : Entry) × (r : List Entry) × (l.search (uac_request l dn) d ≡ (ok (e ∷ r), d))
        × (e.get_attribute_value "userAccountControl" ≡ uac d)
  pub writes :
      (d : D) (v : String)
      → (d' : D) × (l.modify dn (replace "userAccountControl" (v ∷ [])) d ≡ (ok tt, d'))
        × (uac d' ≡ v)

module _ {D : Type 0} (l : Ldap D) (cfg : Config) (sid dn : String) (uac : D → String)
    (s : Serves l cfg sid dn uac) where
  connect-ok : (d : D) → connect l cfg d ≡ (ok tt, d)
  unfolding connect
  connect-ok d = rw (s.dials, s.binds) refl

  dn_from_sid-ok : (d : D) → dn_from_sid l sid d ≡ (ok dn, d)
  unfolding dn_from_sid
  dn_from_sid-ok d = let (e, r, found, named) = s.finds d in rw (found, named) refl

  get_uac-ok : (d : D) → get_uac l dn d ≡ (ok (scan_int (uac d)), d)
  unfolding get_uac
  get_uac-ok d = let (e, r, found, read) = s.reads d in rw (found, read) refl

  disable_account-ok :
      (d : D)
      → (d' : D) × (disable_account l sid d ≡ (ok tt, d'))
        × (uac d' ≡ print_int (or_disable (scan_int (uac d))))
  unfolding disable_account set_uac
  disable_account-ok d =
      let (d', done, kept) = s.writes d (print_int (or_disable (scan_int (uac d)))) in
      (d', rw (dn_from_sid-ok, get_uac-ok) done, kept)

  enable_account-ok :
      (d : D)
      → (d' : D) × (enable_account l sid d ≡ (ok tt, d'))
        × (uac d' ≡ print_int (and_not_disable (scan_int (uac d))))
  unfolding enable_account set_uac
  enable_account-ok d =
      let (d', done, kept) = s.writes d (print_int (and_not_disable (scan_int (uac d)))) in
      (d', rw (dn_from_sid-ok, get_uac-ok) done, kept)

  handle-disable :
      (req : DecisionWebhook) (d : D)
      → cfg.dry_run ≡ false
      → req.account_sid ≡ sid
      → let asked = record req { action = "disable_account" } in
        (d' : D) × (handle l cfg asked d ≡ (ok (result_of l cfg asked ""), d'))
        × (uac d' ≡ print_int (or_disable (scan_int (uac d))))
  unfolding handle perform
  handle-disable req d live same =
      let (d', done, kept) = disable_account-ok d in
      (d', rw (live, connect-ok, same, done) refl, kept)

  handle-enable :
      (req : DecisionWebhook) (d : D)
      → cfg.dry_run ≡ false
      → req.account_sid ≡ sid
      → let asked = record req { action = "enable_account" } in
        (d' : D) × (handle l cfg asked d ≡ (ok (result_of l cfg asked ""), d'))
        × (uac d' ≡ print_int (and_not_disable (scan_int (uac d))))
  unfolding handle perform
  handle-enable req d live same =
      let (d', done, kept) = enable_account-ok d in
      (d', rw (live, connect-ok, same, done) refl, kept)

-- In a directory that answers, and with dry-run off: the action to disable an enabled account
-- succeeds and leaves an account that is disabled; the action to enable it after that succeeds and
-- leaves its control bits as they were at first. The bits are assumed to be those of a 64-bit number.
pub handle-disable_enable :
    {D : Type 0} (l : Ldap D) (cfg : Config) (req : DecisionWebhook) (dn : String)
    (uac : D → String) (n : ℤ) (d : D)
    → Serves l cfg req.account_sid dn uac
    → cfg.dry_run ≡ false
    → IsInt64 n
    → has_disable_bit n ≡ false
    → uac d ≡ print_int n
    → let disable = record req { action = "disable_account" } in
      let enable = record req { action = "enable_account" } in
      let (off, d1) = handle l cfg disable d in
      let (on, d2) = handle l cfg enable d1 in
      (off ≡ ok (result_of l cfg disable ""))
      × (has_disable_bit (scan_int (uac d1)) ≡ true)
      × (on ≡ ok (result_of l cfg enable ""))
      × (uac d2 ≡ uac d)
handle-disable_enable l cfg req dn uac n d s live small enabled bits =
    let (d1, off, kept) = handle-disable l cfg req.account_sid dn uac s req d live refl in
    let (d2, on, back) = handle-enable l cfg req.account_sid dn uac s req d1 live refl in
    let read : scan_int (uac d) ≡ n = rw bits (scan-print n small) in
    let disabled : scan_int (uac d1) ≡ or_disable n =
      rw (kept, read) (scan-print (or_disable n) (or_disable-IsInt64 n small)) in
    rw (off, on)
      (
        refl,
        rw disabled (or_disable-has_disable_bit n),
        refl,
        back ∙ rw (disabled, and_not-or_disable n enabled) (sym bits),
      )
