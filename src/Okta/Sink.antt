-- ===== src/Okta/Sink.antt =====
-- What the adapter sends for a signal, and its source of recorded events: adapters/okta/sink.go and
-- fixture.go. The source has the events in order already; sending is not modelled.
use Prim.Native.String
use oiaf.Base.{
  Bool, true, false, ◌||◌, ◌&&◌, Option, none, some, String, ◌==◌, List, eqb, leb, ltb, filter_by,
  exists_in, ◌<◌, In, In-filter_by, arith, [], ◌∷◌, if◌then◌else◌,
}
use oiaf.Base.Table
use oiaf.Base.Table.{Table}
use oiaf.Json.{Json, bool, string, object, Fields, end, field}
use oiaf.Types.Entities.{Time}
use oiaf.Okta.Events.{LogEvent}
use oiaf.Okta.State.{State, IdentityState}
use oiaf.Okta.Signals.{Signal}

-- The signals of high sensitivity.
abbrev high_signals : List String
high_signals =
    "admin_action" ∷ "mfa_fail" ∷ "mfa_deny" ∷ "mfa_fatigue" ∷ "impossible_travel" ∷ "new_device"
    ∷ "legacy_auth" ∷ []

abbrev sensitivity_of : String → String
sensitivity_of type = if exists_in (λ s. s == type) high_signals then "high" else "medium"

-- What the state holds for the login of the signal.
abbrev identity_of : Option State → Signal → Option IdentityState
identity_of none sig = none
identity_of (some st) sig = Table.get st.identities sig.login

abbrev is_admin : Option IdentityState → Bool
is_admin none = false
is_admin (some id) = id.admin

-- A field that is left out where its text is empty.
abbrev text_field : String → String → Fields → Fields
text_field key value rest = if value == "" then rest else field key (string value) rest

abbrev usual_geo_field : Option IdentityState → Fields
usual_geo_field none = end
usual_geo_field (some id) = text_field "usual_geo" id.last_geo end

unfoldable pub signal_to_access_request : Signal → Option State → Json
signal_to_access_request sig st =
    let id = identity_of st sig in
    object (
      field "identity"
        (object (
          field "username" (string sig.login) (
            field "type" (string "person")
              (field "privileged" (bool (is_admin id)) (usual_geo_field id)))))
        (field "resource"
          (object (
            field "type" (string "okta_signin") (
              field "name" (string (String.◌++◌ "okta:" sig.type))
                (field "sensitivity" (string (sensitivity_of sig.type)) end))))
          (field "protocol" (object (field "name" (string "okta_sso") end)) (
            field "source" (object (text_field "ip" sig.ip (text_field "geo" sig.geo end))) (
              field "device"
                (object (
                  field "managed" (bool false)
                    (field "compliant" (bool (sig.type == "auth_failure")) end)))
                (field "context"
                  (object (field "mfa_recent" (bool false) (field "interactive" (bool true) end)))
                  end))))))

-- Whether an event is strictly after `since` and not after `until`; a zero time is no bound.
unfoldable pub in_window : Time → Time → LogEvent → Bool
in_window since until ev =
    (eqb since 0 || ltb since ev.published) && (eqb until 0 || leb ev.published until)

-- `Fetch` of the fixture.
unfoldable pub fetch_fixture : List LogEvent → Time → Time → List LogEvent
unfolding in_window
fetch_fixture events since until = filter_by (in_window since until) events

-- An event at the time that is fetched from, or before it, is not given.
fetch_fixture-after :
    (events : List LogEvent) (since until : Time) (ev : LogEvent)
    → 0 < since
    → In ev (fetch_fixture events since until)
    → since < ev.published
unfolding fetch_fixture in_window
fetch_fixture-after events since until ev h i =
    let (member, inside) = In-filter_by (in_window since until) ev events i in
    ground (arith, inside, h)
