-- ===== src/Config.antt =====
-- The configuration of the daemon: core/internal/config/config.go. The file is read by the YAML
-- library, an argument; the environment says which variables are set.
pub mod Overlay
use oiaf.Base.{
  ℕ, ℤ, pos, Bool, true, false, not, ◌&&◌, Option, none, some, String, ◌==◌, List, [], ◌∷◌,
  is_empty, eqb, if◌then◌else◌,
}
use oiaf.Base.Action.{Result, ok, err}
use oiaf.Strconv.{parse_bool, trim_text}
use oiaf.Inventory.Entry.{split_text}

pub record ServerConfig : Type 0 where
  pub addr : String
  pub log_level : String
  pub log_format : String
  pub ui_enabled : Bool
  pub metrics_enabled : Bool
  pub tls_cert_file : String
  pub tls_key_file : String
  pub webhooks : String

pub record SecurityConfig : Type 0 where
  pub challenge_ttl_seconds : ℤ
  pub totp_max_attempts : ℤ
  pub push_timestamp_skew_seconds : ℤ
  pub require_secure_cookies : Bool

pub record WebAuthnConfig : Type 0 where
  pub rp_id : String
  pub rp_display_name : String
  pub rp_origins : String
  pub require_user_verification : Bool

pub record RiskThresholds : Type 0 where
  pub low : ℤ
  pub elevated : ℤ
  pub high : ℤ
  pub very_high : ℤ

pub record AdConfig : Type 0 where
  pub ldap_url : String
  pub bind_dn : String
  pub bind_password : String
  pub base_dn : String
  pub insecure_skip_verify : Bool

-- The sections of one field each are that field.
pub record Config : Type 0 where
  pub server : ServerConfig
  pub storage_driver : String
  pub security : SecurityConfig
  pub web_authn : WebAuthnConfig
  pub policy_default_effect : String
  pub risk_thresholds : RiskThresholds
  pub ad : AdConfig
  pub allow_insecure_dev : Bool

pub data ConfigError : Type 0 where
  unreadable malformed : ConfigError
  not_a_boolean : String → ConfigError

-- `os.LookupEnv`
abbrev pub Env : Type 0
Env = String → Option String

unfoldable pub default_config : Config
default_config = record {
  server = record {
    addr = "127.0.0.1:8080";
    log_level = "info";
    log_format = "json";
    ui_enabled = true;
    metrics_enabled = true;
    tls_cert_file = "";
    tls_key_file = "";
    webhooks = "";
  };
  storage_driver = "memory";
  security = record {
    challenge_ttl_seconds = pos 300;
    totp_max_attempts = pos 5;
    push_timestamp_skew_seconds = pos 60;
    require_secure_cookies = true;
  };
  web_authn = record {
    rp_id = "localhost";
    rp_display_name = "OIAF";
    rp_origins = "http://localhost:8080";
    require_user_verification = false;
  };
  policy_default_effect = "deny";
  risk_thresholds = record { low = pos 24; elevated = pos 49; high = pos 74; very_high = pos 89 };
  ad = record {
    ldap_url = "";
    bind_dn = "";
    bind_password = "";
    base_dn = "";
    insecure_skip_verify = false;
  };
  allow_insecure_dev = false;
}

-- `if v, ok := os.LookupEnv(key); ok { field = v }`
abbrev pub or_kept : {A : Type 0} → A → Option A → A
or_kept old none = old
or_kept old (some v) = v

-- A variable whose value is no Boolean is passed over.
abbrev pub flag_of : Option String → Option Bool
flag_of none = none
flag_of (some v) = parse_bool v

unfoldable pub server_overlay : Env → ServerConfig → ServerConfig
server_overlay env s = record s {
  addr = or_kept s.addr (env "OIAF_LISTEN_ADDR");
  log_level = or_kept s.log_level (env "OIAF_LOG_LEVEL");
  log_format = or_kept s.log_format (env "OIAF_LOG_FORMAT");
  ui_enabled = or_kept s.ui_enabled (flag_of (env "OIAF_UI_ENABLED"));
  metrics_enabled = or_kept s.metrics_enabled (flag_of (env "OIAF_METRICS_ENABLED"));
  tls_cert_file = or_kept s.tls_cert_file (env "OIAF_TLS_CERT_FILE");
  tls_key_file = or_kept s.tls_key_file (env "OIAF_TLS_KEY_FILE");
}

unfoldable pub ad_overlay : Env → AdConfig → AdConfig
ad_overlay env a = record a {
  ldap_url = or_kept a.ldap_url (env "OIAF_AD_LDAP_URL");
  bind_dn = or_kept a.bind_dn (env "OIAF_AD_BIND_DN");
  bind_password = or_kept a.bind_password (env "OIAF_AD_BIND_PASSWORD");
  base_dn = or_kept a.base_dn (env "OIAF_AD_BASE_DN");
}

unfoldable pub web_authn_overlay : Env → WebAuthnConfig → WebAuthnConfig
web_authn_overlay env w = record w {
  rp_id = or_kept w.rp_id (env "OIAF_WEBAUTHN_RP_ID");
  rp_display_name = or_kept w.rp_display_name (env "OIAF_WEBAUTHN_RP_DISPLAY_NAME");
  rp_origins = or_kept w.rp_origins (env "OIAF_WEBAUTHN_RP_ORIGINS");
}

-- Any value of the variable chooses the driver.
abbrev pub driver_of : String → Option String → String
driver_of old none = old
driver_of old (some v) = "postgres"

-- All but the last variable.
unfoldable pub overlay : Env → Config → Config
unfolding server_overlay ad_overlay web_authn_overlay
overlay env cfg = record cfg {
  server = server_overlay env cfg.server;
  storage_driver = driver_of cfg.storage_driver (env "OIAF_DATABASE_URL");
  allow_insecure_dev = or_kept cfg.allow_insecure_dev (flag_of (env "OIAF_ALLOW_INSECURE_DEV"));
  ad = ad_overlay env cfg.ad;
  web_authn = web_authn_overlay env cfg.web_authn;
}

-- The last variable, for which a value that is no Boolean is an error.
unfoldable pub verification_overlay : Option String → Config → Result ConfigError Config
verification_overlay none cfg = ok cfg
verification_overlay (some v) cfg = elim (parse_bool (trim_text v)) [
  | none ↦ err (not_a_boolean v)
  | some b ↦ ok (record cfg { web_authn = record cfg.web_authn { require_user_verification = b } })
]

unfoldable pub apply_env : Env → Config → Result ConfigError Config
unfolding overlay verification_overlay
apply_env env cfg =
    verification_overlay (env "OIAF_WEBAUTHN_REQUIRE_USER_VERIFICATION") (overlay env cfg)

-- What the file system and the YAML library give for a path: no file, a file that cannot be read,
-- or what decoding the file onto a configuration gives.
pub data Source : Type 0 where
  absent failing : Source
  found : (Config → Option Config) → Source

unfoldable pub load : Source → Env → Result ConfigError Config
unfolding default_config apply_env
load absent env = apply_env env default_config
load failing env = err unreadable
load (found decode) env = elim (decode default_config) [
  | none ↦ err malformed
  | some cfg ↦ apply_env env cfg
]

unfoldable pub trimmed_parts : List String → List String
trimmed_parts [] = []
trimmed_parts (o ∷ r) =
    let rest = trimmed_parts r in if trim_text o == "" then rest else trim_text o ∷ rest

unfoldable pub web_authn_origins : Config → List String
unfolding trimmed_parts split_text
web_authn_origins cfg = trimmed_parts (split_text cfg.web_authn.rp_origins)

unfoldable pub web_authn_enabled : Config → Bool
unfolding web_authn_origins
web_authn_enabled cfg =
    if cfg.web_authn.rp_id == "" then false else not (is_empty (web_authn_origins cfg))

unfoldable pub insecure_dev_allowed : Env → Config → Bool
insecure_dev_allowed env cfg =
    or_kept cfg.allow_insecure_dev (flag_of (env "OIAF_ALLOW_INSECURE_DEV"))
