-- ===== src/Mfa/WebAuthn/Ceremony.antt =====
-- Identity-scoped ceremonies: core/internal/mfa/webauthn.go. Their sessions are parked in a map of
-- the service, so the state is the store beside that map.
use oiaf.Base.{◌+◌, false, String, none, some, [], ◌∷◌, ltb, if◌then◌else◌}
use oiaf.Base.Table
use oiaf.Base.Table.{Table}
use oiaf.Base.Action.{Result, ok, err}
use oiaf.Types.Entities.{Time}
use oiaf.Types.Errors.{Error, external, no_ceremony, ceremony_expired}
use oiaf.Storage.State.{Store}
use oiaf.Mfa.WebAuthn.{
  WebAuthnLib, Verification, begin_verification, finish_verification, session_ttl,
}

pub record PendingSession : Type 0 where
  pub session : String
  pub expires_at : Time

pub record ServiceState : Type 0 where
  pub store : Store
  pub sessions : Table PendingSession

-- The loop that deletes the sessions whose time is before `now`.
unfoldable pub prune : Time → Table PendingSession → Table PendingSession
prune now [] = []
prune now ((k, p) ∷ r) =
    let rest = prune now r in if ltb p.expires_at now then rest else (k, p) ∷ rest

abbrev park : Time → String → String → ServiceState → ServiceState
park now identity_id session s = record s {
  sessions =
      Table.put (prune now s.sessions) identity_id
        (record { session = session; expires_at = now + session_ttl });
}

-- The options for the browser.
unfoldable pub begin_identity_verification :
    WebAuthnLib → Time → String → ServiceState → Result Error String × ServiceState
unfolding prune begin_verification
begin_identity_verification lib now identity_id s =
    elim (begin_verification lib identity_id s.store).0 [
      | err e ↦ (err e, s)
      | ok started ↦ elim (lib.decode_session started.1) [
        | none ↦ (err (external "encode verification session"), s)
        | some session ↦ (ok started.0, park now identity_id session s)
      ]
    ]

abbrev fails : Error → Verification
fails e = record { valid = false; error = some e }

-- The session is deleted first, whatever becomes of the ceremony.
unfoldable pub finish_identity_verification :
    WebAuthnLib → Time → String → String → ServiceState → Verification × ServiceState
unfolding finish_verification
finish_identity_verification lib now identity_id response s =
    let taken = record s { sessions = Table.remove s.sessions identity_id } in
    elim (Table.get s.sessions identity_id) [
      | none ↦ (fails no_ceremony, taken)
      | some p ↦
          if ltb p.expires_at now
          then (fails ceremony_expired, taken)
          else elim (lib.encode_session p.session) [
            | none ↦ (fails (external "encode verification session"), taken)
            | some text ↦
                let (v, store) = finish_verification lib identity_id text response s.store in
                (v, record taken { store = store })
          ]
    ]
