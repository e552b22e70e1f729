-- ===== src/Tests/Library.antt =====
-- Factors, devices and tokens at concrete inputs.
use oiaf.Base.{
  none, Option, ◌≢◌, Bool-cases, str_eq→eq, inl, inr, refl, true, false, ◌==◌, ◌≡◌, ◌⊎◌, some, [],
  ◌∷◌, arith, In, pos,
}
use oiaf.Base.Table
use oiaf.Base.Action.{ok, err}
use oiaf.Types.Enums.{FactorStatus, Role}
use oiaf.Types.Entities.{Factor, Device, AuthToken}
use oiaf.Types.Errors.{invalid_token}
use oiaf.Storage.State.{Store, new_memory_store}
use oiaf.Mfa.Totp.{activate}
use oiaf.Mfa.Totp.Laws.{activate_ok}
use oiaf.Mfa.Push.{Moment, register_device, verify_approval, compute_push_signature}
use oiaf.Mfa.Push.Laws.{register-approve}
use oiaf.Auth.Revocation.{IsKept, validate-revoke}
use oiaf.Storage.AuthTokens
use oiaf.Auth.{
  accepts, revoke, validate, new_token, is_expired, register_token, trim_prefix, next, middleware,
}
use oiaf.Auth.Laws.{validate_sound, register-validate, middleware-next}
use oiaf.Tests.Data.{bcrypt, totp_lib, push_service, signer, factor, store}

abbrev enrolled : Factor
enrolled = record factor { status = FactorStatus.pending_activation }

abbrev before : Store
before = record store { factors = ("f1", enrolled) ∷ [] }

activated :
    activate totp_lib 5 "u1" "f1" "123456" before
    ≡ (ok tt, record before { factors = ("f1", factor) ∷ [] })
unfolding activate Table.get Table.put
activated = refl

activate_ok_example :
    (f : Factor) × (Table.get before.factors "f1" ≡ some f)
    × (f.identity_id ≡ "u1")
    × (f.status ≡ FactorStatus.pending_activation)
    × (totp_lib.validate "123456" f.secret 5 ≡ true)
    × ((record before { factors = ("f1", factor) ∷ [] }).factors
        ≡ Table.put before.factors f.id (record f { status = FactorStatus.active }))
activate_ok_example =
    activate_ok totp_lib 5 "u1" "f1" "123456" before
      (record before { factors = ("f1", factor) ∷ [] }) activated

abbrev phone : Device
phone = record {
  id = "d1";
  identity_id = "u1";
  name = "phone";
  managed = true;
  compliant = true;
  secret_hash = 7 ∷ (5 ∷ []);
  created_at = 1;
}

registered :
    register_device signer "d1" 1 (some (5 ∷ [])) "u1" "phone" new_memory_store
    ≡ (ok (phone, 5 ∷ []), record new_memory_store { devices = ("d1", phone) ∷ [] })
unfolding register_device Table.put
registered = refl

abbrev signed_at : Moment
signed_at = record { instant = 90; offset = pos 0 }

register-approve_example :
    verify_approval push_service 100 "d1" "c1"
      (pos 42)
      (compute_push_signature signer (5 ∷ []) "c1" (pos 42) signed_at)
      signed_at
      (record new_memory_store { devices = ("d1", phone) ∷ [] })
    ≡ (ok tt, record new_memory_store { devices = ("d1", phone) ∷ [] })
register-approve_example =
    register-approve push_service "d1" 1 100 (5 ∷ []) "u1" "phone" "c1" (pos 42) signed_at
      new_memory_store (record new_memory_store { devices = ("d1", phone) ∷ [] }) phone (5 ∷ [])
      registered (omega arith) (omega arith)

abbrev token : AuthToken
token = new_token "t1" 1 "pw" "cli" Role.admin

abbrev with_token : Store
with_token = record new_memory_store { auth_tokens = ("t1", token) ∷ [] }

validate_sound_example :
    ((validate bcrypt (λ t. 5) "pw" with_token ≡ (err invalid_token, with_token))
      × ((t : AuthToken)
          → In t (Table.values with_token.auth_tokens)
          → accepts bcrypt (λ x. 5) "pw" t ≡ false))
    ⊎ ((t : AuthToken) × (validate bcrypt (λ x. 5) "pw" with_token ≡ (ok t, with_token))
        × In t (Table.values with_token.auth_tokens)
        × (t.revoked ≡ false)
        × (is_expired 5 t.expires_at ≡ false)
        × (bcrypt.compare t.token_hash "pw" ≡ true))
validate_sound_example = validate_sound bcrypt (λ t. 5) "pw" with_token

stored_token :
    register_token bcrypt "t1" 1 "pw" "cli" Role.admin new_memory_store ≡ (ok token, with_token)
unfolding register_token Table.put
stored_token = refl

register-validate_example :
    (found : AuthToken) × (validate bcrypt (λ t. 5) "pw" with_token ≡ (ok found, with_token))
register-validate_example =
    register-validate bcrypt "t1" 1 (λ t. 5) "pw" "cli" Role.admin new_memory_store with_token token
      (λ hash h. cc h) stored_token

passed : middleware bcrypt (λ t. 5) "Bearer pw" with_token ≡ next token
unfolding middleware Table.values accepts
passed = refl

middleware-next_example :
    ((trim_prefix "Bearer pw" "Bearer " == "Bearer pw") ≡ false)
    × In token (Table.values with_token.auth_tokens)
    × (token.revoked ≡ false)
    × (is_expired 5 token.expires_at ≡ false)
    × (bcrypt.compare token.token_hash (trim_prefix "Bearer pw" "Bearer ") ≡ true)
middleware-next_example = middleware-next bcrypt (λ t. 5) "Bearer pw" with_token token passed

abbrev spare : AuthToken
spare = new_token "t2" 1 "pw" "cli" Role.admin

abbrev two_tokens : Store
two_tokens = record new_memory_store { auth_tokens = ("t1", token) ∷ (("t2", spare) ∷ []) }

abbrev one_left : Store
one_left = record new_memory_store {
  auth_tokens = ("t1", record token { revoked = true }) ∷ (("t2", spare) ∷ []);
}

two_tokens-IsKept : IsKept two_tokens
unfolding Table.get
two_tokens-IsKept = record {
  distinct = (refl, (refl, tt));
  at = λ k t h. elim (Bool-cases ("t1" == k)) [
    | inl p ↦ let q : some token ≡ some t = rw p at h in cc (q, str_eq→eq "t1" k p)
    | inr p ↦ elim (Bool-cases ("t2" == k)) [
      | inl r ↦ let q : some spare ≡ some t = rw (p, r) at h in cc (q, str_eq→eq "t2" k r)
      | inr r ↦ let q : ◌≡◌ {A = Option AuthToken} none (some t) = rw (p, r) at h in cc q
    ]
  ];
}

revoked : revoke "t1" two_tokens ≡ (ok tt, one_left)
unfolding revoke AuthTokens.revoke Table.get Table.put
revoked = refl

let_through : validate bcrypt (λ t. 5) "pw" one_left ≡ (ok spare, one_left)
unfolding validate accepts Table.values
let_through = refl

validate-revoke_example : spare.id ≢ "t1"
validate-revoke_example =
    validate-revoke bcrypt (λ t. 5) "pw" "t1" two_tokens one_left one_left spare two_tokens-IsKept
      revoked let_through
