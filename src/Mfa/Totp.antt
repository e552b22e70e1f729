-- ===== src/Mfa/Totp.antt =====
-- One-time codes: core/internal/mfa/totp.go. The codes themselves are made and checked by
-- github.com/pquerna/otp, a parameter.
pub mod Laws
use oiaf.Base.{
  ℕ, ◌-◌, Bool, true, false, not, ◌&&◌, ◌||◌, String, ◌==◌, Option, none, some, List, [], ◌∷◌,
  if◌then◌else◌,
}
use oiaf.Base.Action.{Result, ok, err, lift, guard, pure, ◌>>=◌, ◌>>◌}
use oiaf.Types.Enums.{MfaMethod, FactorStatus, is_active, is_pending_activation, method_eq}
use oiaf.Types.Entities.{Time, Factor}
use oiaf.Types.Errors.{
  Error, factor_not_found, factor_already_activated, invalid_totp_code, external,
}
use oiaf.Storage.State.{Store, Db}
use oiaf.Storage.Factors

-- `totp.Generate` gives a secret and its URL; `totp.Validate` takes a code, a secret and the time
-- at which it looks; `totp.ValidateCustom` with the program's options may fail.
pub record TotpLib : Type 0 where
  pub generate : String → String → Option (String × String)
  pub validate : String → String → Time → Bool
  pub validate_custom : String → String → Time → Option Bool

-- 30 seconds in nanoseconds
abbrev pub half_minute : Time
half_minute = 30000000000

unfoldable pub enroll : TotpLib → String → Time → String → String → Db (Factor × String × String)
unfolding Factors.create
enroll lib id now identity_id issuer = elim (lib.generate issuer identity_id) [
  | none ↦ lift (err (external "generate totp"))
  | some (secret, url) ↦ (do
    let factor : Factor = record {
      id = id;
      identity_id = identity_id;
      method = MfaMethod.totp;
      status = FactorStatus.pending_activation;
      secret = secret;
      credentials = "";
      created_at = now;
    }
    Factors.create factor
    pure (factor, secret, url))
]

-- `factor.Status = active` writes the shared factor, and `Update` stores it again.
unfoldable pub activate : TotpLib → Time → String → String → String → Db Unit
unfolding Factors.get Factors.update
activate lib now identity_id factor_id code = do
  factor ← Factors.get factor_id
  guard (factor.identity_id == identity_id) factor_not_found
  guard (is_pending_activation factor.status) factor_already_activated
  guard (lib.validate code factor.secret now) invalid_totp_code
  Factors.update (record factor { status = FactorStatus.active })

-- `err == nil && valid`
abbrev holds : Option Bool → Bool
holds none = false
holds (some b) = b

-- The test of the loop of `Verify` on one factor.
unfoldable pub accepts : TotpLib → Time → String → Factor → Bool
unfolding method_eq
accepts lib now code f =
    method_eq f.method MfaMethod.totp
    && is_active f.status
    && (lib.validate code f.secret now
        || holds (lib.validate_custom code f.secret (now - half_minute)))

unfoldable pub accepts_any : TotpLib → Time → String → List Factor → Bool
accepts_any lib now code [] = false
accepts_any lib now code (f ∷ r) =
    let rest = accepts_any lib now code r in if accepts lib now code f then true else rest

unfoldable pub verify : TotpLib → Time → String → String → Db Bool
unfolding accepts_any Factors.list_by_identity
verify lib now identity_id code = do
  factors ← Factors.list_by_identity identity_id
  pure (accepts_any lib now code factors)
