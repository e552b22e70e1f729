-- ===== src/Api/Routes/Devices.antt =====
-- The devices of the HTTP interface: core/internal/api/api.go.
use oiaf.Base.{ℤ, String, Option, List}
use oiaf.Base.Action.{◌>>=◌}
use oiaf.Types.Entities.{Time, Device, Challenge}
use oiaf.Storage.Devices as Stored
use oiaf.Mfa.Push
use oiaf.Mfa.Push.{Signer, Bytes, Moment}
use oiaf.Audit.{Stamp}
use oiaf.Challenge as Orchestrator
use oiaf.Challenge.{Service, Clock, Approval}
use oiaf.Api.{Request, missing, internal_error, refused, call, body_or_400}

pub record DeviceBody : Type 0 where
  pub identity_id : String
  pub name : String

-- The device with its secret, which no later response repeats.
unfoldable pub handle_create_device :
    Signer → String → Time → Option Bytes → Option DeviceBody → Request (Device × Bytes)
unfolding Push.register_device
handle_create_device x new_id now entropy body = do
  b ← body_or_400 body
  call (λ e. internal_error "failed to register device")
      (Push.register_device x new_id now entropy b.identity_id b.name)

unfoldable pub handle_list_devices : Request (List Device)
unfolding Stored.list
handle_list_devices = call (λ e. internal_error "failed to list devices") Stored.list

unfoldable pub handle_get_device : String → Request Device
unfolding Stored.get
handle_get_device id = call (λ e. missing "device not found") (Stored.get id)

unfoldable pub handle_delete_device : String → Request Unit
unfolding Stored.delete
handle_delete_device id = call (λ e. internal_error "failed to delete device") (Stored.delete id)

pub record ApproveBody : Type 0 where
  pub challenge_id : String
  pub number : ℤ
  pub signature : Bytes
  pub timestamp : Moment

-- The device of the path approves the challenge of the body.
abbrev approval : String → ApproveBody → Approval
approval device_id b = record {
  device_id = device_id;
  number = b.number;
  signature = b.signature;
  timestamp = b.timestamp;
}

unfoldable pub handle_approve_challenge :
    Service → Clock → Stamp → String → Option ApproveBody → Request Challenge
unfolding Orchestrator.verify_push
handle_approve_challenge svc clock stamp device_id body = do
  b ← body_or_400 body
  call (λ e. refused e)
      (Orchestrator.verify_push svc clock stamp b.challenge_id (approval device_id b))
