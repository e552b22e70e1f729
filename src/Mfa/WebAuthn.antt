-- ===== src/Mfa/WebAuthn.antt =====
-- WebAuthn ceremonies: core/internal/mfa/webauthn.go. The ceremonies themselves and the JSON of
-- their sessions and credentials belong to github.com/go-webauthn/webauthn, a parameter.
pub mod Ceremony
pub mod Laws
use oiaf.Base.{
  ℕ, ◌+◌, ◌-◌, Bool, true, false, not, ◌&&◌, ◌||◌, String, ◌==◌, Option, none, some, List, [], ◌∷◌,
  is_empty, eqb, ltb, bytes_eq, if◌then◌else◌,
}
use oiaf.Base.Table
use oiaf.Base.Table.{Table}
use oiaf.Base.Action.{Result, ok, err, Action, lift, guard, gets, pure, modify, ◌>>=◌, ◌>>◌}
use oiaf.Types.Enums.{MfaMethod, FactorStatus, is_active, is_pending_activation, method_eq}
use oiaf.Types.Entities.{Time, Identity, Factor}
use oiaf.Types.Errors.{
  Error, not_found, external, factor_not_found, factor_already_activated, registration_expired,
  corrupt_session, no_active_credentials, no_ceremony, ceremony_expired, credential_not_found,
  persist_sign_counter,
}
use oiaf.Storage.State.{Store, Db}
use oiaf.Storage.Factors

-- A credential of the library: its identifier, its sign counter and clone warning, and the rest.
pub record Credential : Type 0 where
  pub id : List ℕ
  pub sign_count : ℕ
  pub clone_warning : Bool
  pub rest : String

-- `webauthnUser`
pub record User : Type 0 where
  pub identity_id : String
  pub display_name : String
  pub credentials : List Credential

-- Ceremony options and sessions are texts; a response is what the browser sends.
pub record WebAuthnLib : Type 0 where
  pub begin_registration : User → Option (String × String)
  pub finish_registration : User → String → String → Option Credential
  pub begin_login : User → Option (String × String)
  pub finish_login : User → String → String → Option Credential
  pub encode_session : String → Option String
  pub decode_session : String → Option String
  pub encode_credential : Credential → Option String
  pub decode_credential : String → Option Credential

-- `sessionTTL`, five minutes in nanoseconds
abbrev pub session_ttl : Time
session_ttl = 300000000000

-- A pair `(nil, err)` of the library.
abbrev pub or_external : {A : Type 0} → Option A → String → Result Error A
or_external none what = err (external what)
or_external (some a) what = ok a

-- `f.Method == webauthn && f.Status == active`
unfoldable pub is_active_webauthn : Factor → Bool
unfolding method_eq
is_active_webauthn f = method_eq f.method MfaMethod.webauthn && is_active f.status

-- The error of a session that `json.Unmarshal` refuses.
abbrev or_corrupt : Option String → Result Error String
or_corrupt none = err corrupt_session
or_corrupt (some x) = ok x

abbrev name_of : Option Identity → String
name_of none = ""
name_of (some i) =
    if not (i.display_name == "")
    then i.display_name
    else if not (i.username == "")
    then i.username
    else ""

-- The loop of `user`: the readable credentials of active factors.
unfoldable pub active_credentials : WebAuthnLib → List Factor → List Credential
active_credentials lib [] = []
active_credentials lib (f ∷ r) =
    let rest = active_credentials lib r in
    if is_active_webauthn f
    then elim (lib.decode_credential f.credentials) [ none ↦ rest | some c ↦ c ∷ rest ]
    else rest

unfoldable pub user : WebAuthnLib → String → Db User
unfolding active_credentials Factors.list_by_identity
user lib identity_id = do
  identity ← gets (λ s. Table.get s.identities identity_id)
  factors ← Factors.list_by_identity identity_id
  pure (record {
    identity_id = identity_id;
    display_name = name_of identity;
    credentials = active_credentials lib factors;
  })

unfoldable pub begin_registration : WebAuthnLib → String → Time → String → Db (Factor × String)
unfolding user Factors.create
begin_registration lib id now identity_id = do
  u ← user lib identity_id
  started ← lift (or_external (lib.begin_registration u) "begin registration")
  session ← lift (or_external (lib.encode_session started.1) "encode registration session")
  let factor : Factor = record {
    id = id;
    identity_id = identity_id;
    method = MfaMethod.webauthn;
    status = FactorStatus.pending_activation;
    secret = "";
    credentials = session;
    created_at = now;
  }
  Factors.create factor
  pure (factor, started.0)

-- `factor.CreatedAt.IsZero() || time.Since(factor.CreatedAt) > sessionTTL`
unfoldable pub is_expired_registration : Time → Factor → Bool
is_expired_registration now f = eqb f.created_at 0 || ltb session_ttl (now - f.created_at)

unfoldable pub finish_registration : WebAuthnLib → Time → String → String → String → Db Factor
unfolding user is_expired_registration Factors.get Factors.update
finish_registration lib now identity_id factor_id response = do
  factor ← Factors.get factor_id
  guard (factor.identity_id == identity_id && method_eq factor.method MfaMethod.webauthn)
      factor_not_found
  guard (is_pending_activation factor.status) factor_already_activated
  guard (not (is_expired_registration now factor)) registration_expired
  session ← lift (or_corrupt (lib.decode_session factor.credentials))
  u ← user lib identity_id
  credential ← lift (or_external (lib.finish_registration u session response) "finish registration")
  text ← lift (or_external (lib.encode_credential credential) "encode credential")
  let active : Factor = record factor { credentials = text; status = FactorStatus.active }
  Factors.update active
  pure active

unfoldable pub begin_verification : WebAuthnLib → String → Db (String × String)
unfolding user
begin_verification lib identity_id = do
  u ← user lib identity_id
  guard (not (is_empty u.credentials)) no_active_credentials
  started ← lift (or_external (lib.begin_login u) "begin verification")
  session ← lift (or_external (lib.encode_session started.1) "encode verification session")
  pure (started.0, session)

-- The loop of `persistCounter`: the first active factor that holds the credential.
unfoldable pub persist_in : WebAuthnLib → Credential → List Factor → Db Unit
unfolding Factors.update
persist_in lib updated [] = lift (err credential_not_found)
persist_in lib updated (f ∷ r) =
    let rest = persist_in lib updated r in
    if is_active_webauthn f
    then elim (lib.decode_credential f.credentials) [
      | none ↦ rest
      | some stored ↦
          if bytes_eq stored.id updated.id
          then (do
            text ← lift (
                or_external
                  (lib.encode_credential (record stored {
                    sign_count = updated.sign_count;
                    clone_warning = updated.clone_warning;
                  }))
                  "encode credential")
            Factors.update (record f { credentials = text }))
          else rest
    ]
    else rest

unfoldable pub persist_counter : WebAuthnLib → String → Credential → Db Unit
unfolding persist_in Factors.list_by_identity
persist_counter lib identity_id updated = do
  factors ← Factors.list_by_identity identity_id
  persist_in lib updated factors

-- The two results of `FinishVerification`: whether the assertion is valid, and an error, which may
-- stand beside a valid assertion.
pub record Verification : Type 0 where
  pub valid : Bool
  pub error : Option Error

abbrev after_persist : Result Error (Unit {0}) → Verification
after_persist (ok u) = record { valid = true; error = none }
after_persist (err e) = record { valid = true; error = some (persist_sign_counter e) }

abbrev rejected : Error → Verification
rejected e = record { valid = false; error = some e }

abbrev login : WebAuthnLib → String → String → String → Db Credential
login lib identity_id session response = do
  state ← lift (or_corrupt (lib.decode_session session))
  u ← user lib identity_id
  lift (or_external (lib.finish_login u state response) "finish verification")

-- What follows the library's check: the sign counter of an accepted credential is stored.
pub conclude_login : WebAuthnLib → String → Result Error Credential → Store → Verification × Store
unfolding persist_counter
conclude_login lib identity_id (err e) s = (rejected e, s)
conclude_login lib identity_id (ok credential) s =
    let (r, s') = persist_counter lib identity_id credential s in (after_persist r, s')

unfoldable pub finish_verification :
    WebAuthnLib → String → String → String → Store → Verification × Store
unfolding user conclude_login
finish_verification lib identity_id session response s =
    conclude_login lib identity_id (login lib identity_id session response s).0 s
