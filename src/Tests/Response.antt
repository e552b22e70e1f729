-- ===== src/Tests/Response.antt =====
-- A directory of one account, for the adapter that acts on decisions.
use oiaf.Base.{arith, pos, ◌≡◌, refl, true, false, ◌||◌, String, ◌==◌, List, [], ◌∷◌, if◌then◌else◌}
use oiaf.Base.Action.{ok, err, Action}
use oiaf.Fmt.{push_nth, digit, print_digits, print_nat, print_int, scan_int}
use oiaf.Response.{
  Ldap, Entry, Failure, external, Config, DecisionWebhook, SearchRequest, Change, replace, delete,
  handle, result_of,
}
use oiaf.Inventory.Entry.{has_disable_bit}
use oiaf.Response.Account.{Serves, handle-disable_enable}

abbrev bob_dn : String
bob_dn = "CN=bob,DC=corp"

abbrev bob : String → Entry
bob uac = record {
  dn = bob_dn;
  get_attribute_value = λ a. if a == "userAccountControl" then uac else "";
}

abbrev answer_search : SearchRequest → Action Failure String (List Entry)
answer_search req uac =
    if req.filter == "(objectSid=S-1-5-21)" || req.base_dn == bob_dn
    then (ok (bob uac ∷ []), uac)
    else (ok [], uac)

abbrev answer_modify : String → Change → Action Failure String Unit
answer_modify dn (delete a vs) uac = (err (external "no such attribute"), uac)
answer_modify dn (replace a []) uac = (err (external "no value"), uac)
answer_modify dn (replace a (v ∷ r)) uac =
    if dn == bob_dn then (ok tt, v) else (err (external "no such object"), uac)

abbrev directory : Ldap String
directory = record {
  dial_url = λ tls url d. (ok tt, d);
  bind = λ dn password d. (ok tt, d);
  search = answer_search;
  modify = answer_modify;
  escape_filter = λ s. s;
}

abbrev settings : Config
settings = record {
  listen_addr = ":9090";
  oiaf_server = "http://127.0.0.1:8080";
  oiaf_token = "t";
  ldap_url = "ldaps://dc.corp";
  bind_dn = "CN=oiaf";
  bind_password = "p";
  dry_run = false;
}

abbrev deny_bob : DecisionWebhook
deny_bob = record {
  request_id = "r1";
  account_name = "bob";
  account_sid = "S-1-5-21";
  decision = "deny";
  risk_score = pos 95;
  reasons = [];
  action = "";
}

served : Serves directory settings "S-1-5-21" bob_dn (λ d. d)
served = record {
  dials = λ tls d. refl;
  binds = λ d. refl;
  finds = λ d. (bob d, [], refl, refl);
  reads = λ d. (bob d, [], refl, refl);
  writes = λ d v. (v, refl, refl);
}

handle-disable_enable_example :
    let disable = record deny_bob { action = "disable_account" } in
    let enable = record deny_bob { action = "enable_account" } in
    let (off, d1) = handle directory settings disable "512" in
    let (on, d2) = handle directory settings enable d1 in
    (off ≡ ok (result_of directory settings disable ""))
    × (has_disable_bit (scan_int d1) ≡ true)
    × (on ≡ ok (result_of directory settings enable ""))
    × (d2 ≡ "512")
unfolding has_disable_bit print_int print_nat print_digits digit push_nth
handle-disable_enable_example =
    handle-disable_enable directory settings deny_bob bob_dn (λ d. d) (pos 512) "512" served refl
      (omega arith) refl refl
