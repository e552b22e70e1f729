-- ===== src/Response.antt =====
-- The adapter that acts on decisions in Active Directory: adapters/ad-response/{actions,config,main}.go.
-- The directory is reached by the LDAP client library, an interface here; the state is what the
-- directory holds, so that opening and closing a connection leave it as it is. Logging is left out.
pub mod Account
use Prim.Native.Nat.{◌%◌}
use Prim.Native.String
use oiaf.Base.{
  Option, none, some, ℕ, ℤ, pos, negsuc, ◌+◌, ◌-◌, Bool, true, false, ◌||◌, not, String, ◌==◌, List,
  [], ◌∷◌, codes, ltb, if◌then◌else◌,
}
use oiaf.Base.Action.{Result, ok, err, Action, pure, fail, ◌>>=◌, ◌>>◌}
use oiaf.Policy.Values.{is_prefix}
use oiaf.Strconv.{parse_bool}
use oiaf.Fmt.{print_int, scan_int}

pub data Failure : Type 0 where
  ldap_connect ldap_bind search_by_sid : Failure → Failure
  no_account entry_not_found unknown_action : String → Failure
  no_group_dn ldap_url_required : Failure
  external : String → Failure

pub data Scope : Type 0 where
  whole_subtree base_object : Scope

-- A search for at most one entry.
pub record SearchRequest : Type 0 where
  pub base_dn : String
  pub scope : Scope
  pub filter : String
  pub attributes : List String

pub record Entry : Type 0 where
  pub dn : String
  pub get_attribute_value : String → String

pub data Change : Type 0 where
  replace delete : String → List String → Change

-- The LDAP client: `DialURL` with a TLS configuration or without, `Bind`, `Search`, `Modify`,
-- `EscapeFilter`.
pub record Ldap (D : Type 0) : Type 0 where
  pub dial_url : Bool → String → Action Failure D Unit
  pub bind : String → String → Action Failure D Unit
  pub search : SearchRequest → Action Failure D (List Entry)
  pub modify : String → Change → Action Failure D Unit
  pub escape_filter : String → String

pub record Config : Type 0 where
  pub listen_addr : String
  pub oiaf_server : String
  pub oiaf_token : String
  pub ldap_url : String
  pub bind_dn : String
  pub bind_password : String
  pub dry_run : Bool

-- The environment: the empty text where a variable is not set.
abbrev Env : Type 0
Env = String → String

abbrev env_or : Env → String → String → String
env_or env key fallback = if env key == "" then fallback else env key

abbrev or_else : Bool → Option Bool → Bool
or_else fallback none = fallback
or_else fallback (some b) = b

abbrev env_bool : Env → String → Bool → Bool
env_bool env key fallback =
    if env key == "" then fallback else or_else fallback (parse_bool (env key))

unfoldable pub load_config : Env → Result Failure Config
load_config env =
    let cfg : Config = record {
      listen_addr = env_or env "AD_RESPONSE_LISTEN" ":9090";
      oiaf_server = env_or env "OIAF_SERVER" "http://127.0.0.1:8080";
      oiaf_token = env "OIAF_ADAPTER_TOKEN";
      ldap_url = env "AD_LDAP_URL";
      bind_dn = env "AD_BIND_DN";
      bind_password = env "AD_BIND_PASSWORD";
      dry_run = env_bool env "AD_DRY_RUN" true;
    } in
    if cfg.ldap_url == "" then err ldap_url_required else ok cfg

pub record DecisionWebhook : Type 0 where
  pub request_id : String
  pub account_name : String
  pub account_sid : String
  pub decision : String
  pub risk_score : ℤ
  pub reasons : List String
  pub action : String

pub record ActionResult : Type 0 where
  pub action : String
  pub account : String
  pub dry_run : Bool
  pub success : Bool
  pub detail : String

-- `n | 2` and `n &^ 2` on the bits of a number.
abbrev pub with_bit : ℕ → ℕ
with_bit n = if ltb (n % 4) 2 then n + 2 else n

abbrev pub without_bit : ℕ → ℕ
without_bit n = if ltb (n % 4) 2 then n else n - 2

-- `current | uacAccountDisable`; the bits of `negsuc n` are those of `n` turned.
unfoldable pub or_disable : ℤ → ℤ
or_disable (pos n) = pos (with_bit n)
or_disable (negsuc n) = negsuc (without_bit n)

-- `current &^ uacAccountDisable`
unfoldable pub and_not_disable : ℤ → ℤ
and_not_disable (pos n) = pos (without_bit n)
and_not_disable (negsuc n) = negsuc (with_bit n)

abbrev last_or : String → List String → String
last_or s [] = s
last_or s (t ∷ r) = last_or t r

-- The first entry, or an error.
abbrev pub first_entry : Failure → List Entry → Result Failure Entry
first_entry f [] = err f
first_entry f (e ∷ r) = ok e

abbrev pub wrap : {A : Type 0} → (Failure → Failure) → Result Failure A → Result Failure A
wrap f (ok a) = ok a
wrap f (err e) = err (f e)

module _ {D : Type 0} where
  abbrev pub wrapped : {A : Type 0} → (Failure → Failure) → Action Failure D A → Action Failure D A
  wrapped f m d = let (r, d') = m d in (wrap f r, d')

  abbrev pub from_result : {A : Type 0} → Result Failure A → Action Failure D A
  from_result r d = (r, d)

module _ {D : Type 0} (l : Ldap D) where
  unfoldable pub connect : Config → Action Failure D Unit
  connect cfg = do
    l.dial_url (is_prefix (codes "ldaps://") (codes cfg.ldap_url)) cfg.ldap_url
    wrapped ldap_bind (l.bind cfg.bind_dn cfg.bind_password)

  abbrev pub sid_request : String → SearchRequest
  sid_request sid = record {
    base_dn = "";
    scope = whole_subtree;
    filter = String.◌++◌ "(objectSid=" (String.◌++◌ (l.escape_filter sid) ")");
    attributes = "distinguishedName" ∷ [];
  }

  abbrev pub uac_request : String → SearchRequest
  uac_request dn = record {
    base_dn = dn;
    scope = base_object;
    filter = "(objectClass=*)";
    attributes = "userAccountControl" ∷ [];
  }

  unfoldable pub dn_from_sid : String → Action Failure D String
  dn_from_sid sid = do
    entries ← wrapped search_by_sid (l.search (sid_request sid))
    e ← from_result (first_entry (no_account sid) entries)
    pure e.dn

  unfoldable pub get_uac : String → Action Failure D ℤ
  get_uac dn = do
    entries ← l.search (uac_request dn)
    e ← from_result (first_entry (entry_not_found dn) entries)
    pure (scan_int (e.get_attribute_value "userAccountControl"))

  unfoldable pub set_uac : String → ℤ → Action Failure D Unit
  set_uac dn uac = l.modify dn (replace "userAccountControl" (print_int uac ∷ []))

  unfoldable pub disable_account : String → Action Failure D Unit
  unfolding dn_from_sid get_uac set_uac or_disable
  disable_account sid = do
    dn ← dn_from_sid sid
    current ← get_uac dn
    set_uac dn (or_disable current)

  unfoldable pub enable_account : String → Action Failure D Unit
  unfolding dn_from_sid get_uac set_uac and_not_disable
  enable_account sid = do
    dn ← dn_from_sid sid
    current ← get_uac dn
    set_uac dn (and_not_disable current)

  unfoldable pub force_password_reset : String → Action Failure D Unit
  unfolding dn_from_sid
  force_password_reset sid = do dn ← dn_from_sid sid; l.modify dn (replace "pwdLastSet" ("0" ∷ []))

  unfoldable pub remove_from_group : String → List String → Action Failure D Unit
  unfolding dn_from_sid
  remove_from_group sid [] = fail no_group_dn
  remove_from_group sid (reason ∷ reasons) = do
    dn ← dn_from_sid sid
    l.modify (last_or reason reasons) (delete "member" (dn ∷ []))

  -- The switch of `Handle`.
  unfoldable pub perform : String → DecisionWebhook → Action Failure D Unit
  unfolding disable_account enable_account force_password_reset remove_from_group
  perform action req =
      if action == "disable_account"
      then disable_account req.account_sid
      else if action == "enable_account"
      then enable_account req.account_sid
      else if action == "force_password_reset"
      then force_password_reset req.account_sid
      else if action == "remove_from_group"
      then remove_from_group req.account_sid req.reasons
      else fail (unknown_action action)

  abbrev pub action_of : DecisionWebhook → String
  action_of req = if req.action == "" then "disable_account" else req.action

  abbrev pub result_of : Config → DecisionWebhook → String → ActionResult
  result_of cfg req detail = record {
    action = action_of req;
    account = req.account_name;
    dry_run = cfg.dry_run;
    success = true;
    detail = detail;
  }

  unfoldable pub handle : Config → DecisionWebhook → Action Failure D ActionResult
  unfolding connect perform
  handle cfg req =
      if cfg.dry_run then pure (result_of cfg req "dry-run: action logged but not applied") else do
        wrapped ldap_connect (connect cfg)
        perform (action_of req) req
        pure (result_of cfg req "")

-- What the webhook answers.
pub data Answer : Type 0 where
  invalid_body ignored : Answer
  action_failed : Failure → Answer
  acted : ActionResult → Answer

abbrev answer_of : Result Failure ActionResult → Answer
answer_of (ok r) = acted r
answer_of (err e) = action_failed e

-- `POST /webhook/oiaf-decision`, on a body that was decoded.
unfoldable pub receive : {D : Type 0} → Ldap D → Config → DecisionWebhook → D → Answer × D
unfolding handle
receive l cfg req d =
    let (r, d') = handle l cfg req d in
    if req.decision == "deny" || req.decision == "challenge"
    then (answer_of r, d')
    else (ignored, d)
