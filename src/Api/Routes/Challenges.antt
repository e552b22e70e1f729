-- ===== src/Api/Routes/Challenges.antt =====
-- The challenges of the HTTP interface: core/internal/api/api.go.
use oiaf.Base.{String, Option, none, some, List}
use oiaf.Base.Action.{Result, ok, err, lift}
use oiaf.Types.Entities.{Time, Challenge}
use oiaf.Storage.State.{Store}
use oiaf.Audit.{Stamp}
use oiaf.Challenge as Orchestrator
use oiaf.Challenge.{Service, Clock, Finished}
use oiaf.Api.{Request, HttpError, internal_error, refused, call}
use oiaf.Api.Routes.Factors.{not_configured}

unfoldable pub handle_list_challenges : Request (List Challenge)
unfolding Orchestrator.list
handle_list_challenges = call (λ e. internal_error "failed to list challenges") Orchestrator.list

-- The options for the browser.
unfoldable pub handle_challenge_webauthn_begin : Service → Time → String → Request String
unfolding Orchestrator.begin_webauthn
handle_challenge_webauthn_begin svc now id = elim svc.webauthn [
  | none ↦ lift (err not_configured)
  | some lib ↦ call (λ e. refused e) (Orchestrator.begin_webauthn svc now id)
]

-- An error is the response, also where it stands beside an approved challenge. No challenge and no
-- error does not occur; the body would be `null`.
abbrev finished : Finished → Result HttpError (Option Challenge)
finished f = elim f.error [ some e ↦ err (refused e) | none ↦ ok f.challenge ]

abbrev finished_pair : Finished × Store → Result HttpError (Option Challenge) × Store
finished_pair (f, s) = (finished f, s)

unfoldable pub handle_challenge_webauthn_finish :
    Service → Clock → Stamp → String → String → Request (Option Challenge)
unfolding Orchestrator.finish_webauthn
handle_challenge_webauthn_finish svc clock stamp id response s = elim svc.webauthn [
  | none ↦ (err not_configured, s)
  | some lib ↦ finished_pair (Orchestrator.finish_webauthn svc clock stamp id response s)
]
