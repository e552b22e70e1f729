-- ===== src/Tests/Adapter.antt =====
-- A tenant with one event, a sink that takes everything, and a server that echoes the credential.
use oiaf.Base.{
  ℕ, ◌+◌, ◌*◌, ◌≤◌, ◌≡◌, refl, inl, pos, true, false, Option, none, some, List, [], ◌∷◌, bytes_eq,
  In, arith, codes, length, is_empty, leb, ltb, if◌then◌else◌,
}
use oiaf.Policy.Values.{is_prefix}
use oiaf.Types.Entities.{Time}
use oiaf.Okta.Events.{LogEvent}
use oiaf.Okta.State.{new_state}
use oiaf.Okta.Signals.{SignalLib, Detector}
use oiaf.Okta.Poll.{poll_once, fetched}
use oiaf.Okta.Poll.Delivery.{IsHandled, poll_once-IsHandled}
use oiaf.Okta.Pages.{Text, UrlLib, World, reply, fetch_logs, page_cap}
use oiaf.Okta.Pages.Hosts.{AreAllowed, first_url, fetch_logs-AreAllowed}
use oiaf.Okta.Credential.{
  TextLib, fold, credential_needles, redact_credential, redacted_writes, render,
}
use oiaf.Okta.Credential.Clean.{AreClean, runs, redacted_writes-AreClean}

abbrev lib : SignalLib
lib = record {
  haversine_km = λ a b c d. 0;
  hours_between = λ a b. 0;
  div = λ a b. a;
  exceeds = λ a b. ltb b a;
  zero = 0;
  format_float = λ x. "";
  itoa = λ n. "";
  duration = λ t. "";
  join = λ xs. "";
}

abbrev pub detector : Detector
detector = record {
  lib = lib;
  sort = λ all. all;
  params = record { fatigue_threshold = 3; fatigue_window = 600; max_travel_speed_kmh = 900 };
}

abbrev pub denied : LogEvent
denied = record {
  uuid = "u1";
  published = 5000;
  event_type = "user.mfa.okta_verify.deny";
  display_msg = "";
  outcome = record { result = "FAILURE"; reason = "" };
  actor = record { id = ""; type = "User"; display_name = "Bob"; alternate_id = "bob@x" };
  client = record {
    ip_address = "";
    user_agent = record { raw_user_agent = ""; browser = ""; os = "" };
    zone = "";
    device = "";
    id = "";
    geographic = record { city = ""; state = ""; country = ""; geolocation = none };
  };
  credential_type = "";
  debug_data = [];
  targets = [];
}

poll_once-IsHandled_example :
    IsHandled detector
      (λ sent sig. true)
      new_state
      (denied ∷ [])
      (poll_once detector (λ sent sig. true) true (fetched (denied ∷ [])) new_state).1
      denied
poll_once-IsHandled_example =
    poll_once-IsHandled detector (λ sent sig. true) true (denied ∷ []) new_state
      (λ e i. absurd i, tt) (λ e i. omega arith) denied (inl refl)

abbrev urls : UrlLib
urls = record {
  parse = λ t.
      if is_prefix (codes "https://t") t
      then some (record { scheme = "https"; host = codes "t"; hostname = "t"; text = t })
      else none;
  is_loopback_ip = λ host. false;
}

-- Every page names a next one.
abbrev endless : World
endless = record {
  answer = λ log url. reply 200 (some []) (codes "<https://t/n>; rel=\"next\"");
  done_waiting = λ log. false;
  done = λ log. false;
}

abbrev query : ℕ → Option Time → Option Time → Text
query limit since until = codes "limit=2"

fetch_logs-AreAllowed_example :
    AreAllowed urls endless
      (codes "https://t")
      (first_url (codes "https://t") query 0 0 (pos 2))
      (fetch_logs urls endless (codes "https://t") query 0 0 (pos 2) (pos 3)).requests
    × (length (fetch_logs urls endless (codes "https://t") query 0 0 (pos 2) (pos 3)).requests
        ≤ page_cap (pos 3) * 5)
fetch_logs-AreAllowed_example =
    fetch_logs-AreAllowed urls endless (codes "https://t") query 0 0 (pos 2) (pos 3)

abbrev texts : TextLib
texts = record {
  lower = λ a. if leb b'A' a then (if leb a b'Z' then a + 32 else a) else a;
  query_escape = λ s. s;
  path_escape = λ s. s;
}

echoed : redact_credential texts (codes "got SSWS aBc") (codes "AbC") ≡ codes "got SSWS [redacted]"
unfolding redact_credential bytes_eq is_prefix
echoed = refl

redacted_writes-AreClean_example :
    (redact_credential texts (codes "got SSWS aBc") (codes "AbC")
      ≡ render (redacted_writes texts (codes "got SSWS aBc") (codes "AbC")))
    × AreClean texts
        (fold texts (codes "AbC"))
        (runs (redacted_writes texts (codes "got SSWS aBc") (codes "AbC")))
    × ((n : List ℕ)
        → In n (credential_needles texts (codes "AbC"))
        → is_empty n ≡ false
        → AreClean texts n (runs (redacted_writes texts (codes "got SSWS aBc") (codes "AbC"))))
redacted_writes-AreClean_example =
    redacted_writes-AreClean texts (codes "got SSWS aBc") (codes "AbC") refl
