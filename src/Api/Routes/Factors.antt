-- ===== src/Api/Routes/Factors.antt =====
-- The factors of the HTTP interface: core/internal/api/api.go. The WebAuthn service is there if it is
-- configured; its identity-scoped ceremonies keep their sessions beside the store.
use oiaf.Base.{Bool, String, ◌==◌, Option, none, some, if◌then◌else◌}
use oiaf.Base.Action.{Result, ok, err, Action, pure, lift, ◌>>=◌, ◌>>◌}
use oiaf.Types.Enums.{FactorStatus}
use oiaf.Types.Entities.{Time, Factor}
use oiaf.Mfa.Totp
use oiaf.Mfa.Totp.{TotpLib}
use oiaf.Mfa.WebAuthn
use oiaf.Mfa.WebAuthn.{WebAuthnLib, Verification}
use oiaf.Mfa.WebAuthn.Ceremony
use oiaf.Mfa.WebAuthn.Ceremony.{ServiceState}
use oiaf.Api.{
  Request, HttpError, internal_error, failed, unavailable, bad_request, refused, call, or_respond,
  body_or_400,
}

pub record Enrolled : Type 0 where
  pub factor_id : String
  pub secret : String
  pub otpauth_uri : String
  pub status : FactorStatus

unfoldable pub handle_totp_enroll : TotpLib → String → Time → String → Request Enrolled
unfolding Totp.enroll
handle_totp_enroll lib new_id now id = do
  (factor, secret, uri) ←
      call (λ e. internal_error "failed to enroll totp") (Totp.enroll lib new_id now id "OIAF")
  pure
      (record { factor_id = factor.id; secret = secret; otpauth_uri = uri; status = factor.status })

pub record ActivateBody : Type 0 where
  pub factor_id : String
  pub code : String

unfoldable pub handle_totp_activate :
    TotpLib → Time → String → Option ActivateBody → Request FactorStatus
unfolding Totp.activate
handle_totp_activate lib now id body = do
  b ← body_or_400 body
  call (λ e. refused e) (Totp.activate lib now id b.factor_id b.code)
  pure FactorStatus.active

abbrev pub not_configured : HttpError
not_configured = unavailable "webauthn factor not configured"

-- The factor and the options for the browser.
unfoldable pub handle_webauthn_begin_registration :
    Option WebAuthnLib → String → Time → String → Request (Factor × String)
unfolding WebAuthn.begin_registration
handle_webauthn_begin_registration none new_id now id = lift (err not_configured)
handle_webauthn_begin_registration (some lib) new_id now id =
    call (λ e. failed "failed to begin webauthn registration: " e)
      (WebAuthn.begin_registration lib new_id now id)

unfoldable pub handle_webauthn_finish_registration :
    Option WebAuthnLib → Time → String → String → String → Request Factor
unfolding WebAuthn.finish_registration
handle_webauthn_finish_registration none now id factor_id response = lift (err not_configured)
handle_webauthn_finish_registration (some lib) now id factor_id response =
    if factor_id == ""
    then lift (err (bad_request "factor_id is required"))
    else call (λ e. refused e) (WebAuthn.finish_registration lib now id factor_id response)

unfoldable pub handle_webauthn_begin_verification :
    Option WebAuthnLib → Time → String → Action HttpError ServiceState String
unfolding Ceremony.begin_identity_verification
handle_webauthn_begin_verification none now id s = (err not_configured, s)
handle_webauthn_begin_verification (some lib) now id s =
    let (r, s') = Ceremony.begin_identity_verification lib now id s in
    (or_respond (λ e. refused e) r, s')

-- An error of the ceremony is the response, also where it stands beside a valid assertion.
abbrev verified : Verification → Result HttpError Bool
verified v = elim v.error [ some e ↦ err (refused e) | none ↦ ok v.valid ]

unfoldable pub handle_webauthn_finish_verification :
    Option WebAuthnLib → Time → String → String → Action HttpError ServiceState Bool
unfolding Ceremony.finish_identity_verification
handle_webauthn_finish_verification none now id response s = (err not_configured, s)
handle_webauthn_finish_verification (some lib) now id response s =
    let (v, s') = Ceremony.finish_identity_verification lib now id response s in (verified v, s')
