-- ===== src/Config/Overlay.antt =====
-- What the environment does to the configuration of core/internal/config/config.go.
use oiaf.Base.{◌≡◌, refl, ap, ◌∙◌, inl, inr, Option, none, some, String, Option-cases}
use oiaf.Base.Action.{Result, ok}
use oiaf.Strconv.{parse_bool, trim_text}
use oiaf.Config.{
  Config, ConfigError, Env, Source, absent, failing, found, or_kept, driver_of, overlay,
  server_overlay, ad_overlay, web_authn_overlay, verification_overlay, apply_env, load,
  default_config,
}

ok_injective : {a b : Config} → ◌≡◌ {A = Result ConfigError Config} (ok a) (ok b) → a ≡ b
ok_injective e = cc e

verification_overlay-parsed :
    (v : String) (cfg done : Config)
    → verification_overlay (some v) cfg ≡ ok done
    → parse_bool (trim_text v) ≡ some done.web_authn.require_user_verification
unfolding verification_overlay
verification_overlay-parsed v cfg done h = elim (Option-cases (parse_bool (trim_text v))) [
  | inl n ↦ cc (n, h)
  | inr (b, p) ↦
      let made : (◌≡◌ {A = Result ConfigError Config}
          (ok (record cfg { web_authn = record cfg.web_authn { require_user_verification = b } }))
          (ok done)) =
        rw (verification_overlay, p) at h in
      p ∙ ap (λ c. some c.web_authn.require_user_verification) (ok_injective made)
]

-- A configuration that is loaded while the variable for user verification is set has its value: one
-- that is no Boolean is never passed over.
pub load-verification :
    (source : Source) (env : Env) (v : String) (cfg : Config)
    → env "OIAF_WEBAUTHN_REQUIRE_USER_VERIFICATION" ≡ some v
    → load source env ≡ ok cfg
    → parse_bool (trim_text v) ≡ some cfg.web_authn.require_user_verification
unfolding load apply_env
load-verification absent env v cfg e h =
    verification_overlay-parsed v (overlay env default_config) cfg (rw e at h)
load-verification failing env v cfg e h = cc h
load-verification (found decode) env v cfg e h = elim (Option-cases (decode default_config)) [
  | inl n ↦ cc (n, h)
  | inr (c, p) ↦ verification_overlay-parsed v (overlay env c) cfg (rw (p, e) at h)
]

or_kept-twice : {A : Type 0} (old : A) (o : Option A) → or_kept (or_kept old o) o ≡ or_kept old o
or_kept-twice old none = refl
or_kept-twice old (some v) = refl

driver_of-twice :
    (old : String) (o : Option String) → driver_of (driver_of old o) o ≡ driver_of old o
driver_of-twice old none = refl
driver_of-twice old (some v) = refl

-- Applying the environment again changes nothing.
pub overlay-twice : (env : Env) (cfg : Config) → overlay env (overlay env cfg) ≡ overlay env cfg
unfolding overlay server_overlay ad_overlay web_authn_overlay
overlay-twice env cfg = simp (or_kept-twice, driver_of-twice) refl
