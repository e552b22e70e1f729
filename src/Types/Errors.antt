-- ===== src/Types/Errors.antt =====
-- The errors that the program makes with `fmt.Errorf`, one constructor for each message; an error
-- that wraps another carries it.
use oiaf.Base.{String}

pub data Error : Type 0 where
  not_found : String → Error
  -- core/internal/challenge/service.go
  already_resolved challenge_expired too_many_attempts : Error
  invalid_code number_mismatch invalid_assertion : Error
  push_verification_failed : Error → Error
  webauthn_not_configured method_not_allowed no_ceremony : Error
  -- core/internal/mfa
  timestamp_outside_window device_not_found invalid_signature : Error
  factor_not_found factor_already_activated invalid_totp_code : Error
  registration_expired corrupt_session no_active_credentials ceremony_expired : Error
  credential_not_found : Error
  persist_sign_counter : Error → Error
  -- core/internal/auth/auth.go
  invalid_token : Error
  -- core/internal/policy/engine.go
  invalid_json nested_too_deep : Error
  unknown_operator : String → Error
  -- an error that code outside the program returned
  external : String → Error
