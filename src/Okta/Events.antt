-- ===== src/Okta/Events.antt =====
-- Okta's log events: adapters/okta/client.go. What an event carries that the adapter reads.
use oiaf.Base.{not, ◌&&◌, String, ◌==◌, Option, List, if◌then◌else◌}
use Prim.Native.String
use oiaf.Types.Entities.{Time}
use oiaf.Types.Directory.{Float64}

pub record Outcome : Type 0 where
  pub result : String
  pub reason : String

pub record Actor : Type 0 where
  pub id : String
  pub type : String
  pub display_name : String
  pub alternate_id : String

pub record UserAgent : Type 0 where
  pub raw_user_agent : String
  pub browser : String
  pub os : String

pub record Geo : Type 0 where
  pub lat : Float64
  pub lon : Float64

pub record Geographic : Type 0 where
  pub city : String
  pub state : String
  pub country : String
  pub geolocation : Option Geo

pub record EventClient : Type 0 where
  pub ip_address : String
  pub user_agent : UserAgent
  pub zone : String
  pub device : String
  pub id : String
  pub geographic : Geographic

pub record Target : Type 0 where
  pub id : String
  pub type : String
  pub alternate_id : String
  pub display_name : String

-- `debug_data` holds the values of the free-form map. The contexts that the adapter only decodes are
-- left out.
pub record LogEvent : Type 0 where
  pub uuid : String
  pub published : Time
  pub event_type : String
  pub display_msg : String
  pub outcome : Outcome
  pub actor : Actor
  pub client : EventClient
  pub credential_type : String
  pub debug_data : List String
  pub targets : List Target

unfoldable pub actor_login : LogEvent → String
actor_login ev =
    if not (ev.actor.alternate_id == "") then ev.actor.alternate_id else ev.actor.display_name

unfoldable pub device_fingerprint : LogEvent → String
device_fingerprint ev =
    if (ev.client.device == "") && (ev.client.user_agent.raw_user_agent == "")
    then ""
    else String.◌++◌ ev.client.device (String.◌++◌ "|" ev.client.user_agent.raw_user_agent)

unfoldable pub geo_label : LogEvent → String
geo_label ev =
    let g = ev.client.geographic in
    if not (g.city == "") && not (g.country == "")
    then String.◌++◌ g.city (String.◌++◌ ", " g.country)
    else if not (g.city == "")
    then g.city
    else if not (g.country == "")
    then g.country
    else if not (g.state == "")
    then g.state
    else ""
