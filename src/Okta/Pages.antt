-- ===== src/Okta/Pages.antt =====
-- The pages of the System Log: adapters/okta/client.go. URLs are lists of code points; `net/url` and
-- `net` are a parameter, the server and the context are functions of the requests made so far. What
-- the messages of errors quote, and how long the client waits, is left out.
pub mod Tenant
pub mod Attempts
pub mod Hosts
use oiaf.Base.{
  ℕ, ℤ, pos, negsuc, zero, suc, ◌+◌, ◌-◌, Bool, true, false, not, ◌&&◌, ◌||◌, String, ◌==◌, Option,
  none, some, List, [], ◌∷◌, ◌++◌, codes, map, take, is_empty, bytes_eq, exists_in, eqb, leb, ltb,
  if◌then◌else◌,
}
use oiaf.Base.Action.{Result, ok, err}
use oiaf.Policy.Values.{split, lower, is_prefix}
use oiaf.Strconv.{trim_space}
use oiaf.Types.Entities.{Time}
use oiaf.Okta.Events.{LogEvent}
use oiaf.Okta.State.{drop}

abbrev pub Text : Type 0
Text = List ℕ

pub record Url : Type 0 where
  pub scheme : String
  pub host : Text
  pub hostname : String
  pub text : Text

-- `url.Parse`, and whether `net.ParseIP` reads a loopback address.
pub record UrlLib : Type 0 where
  pub parse : Text → Option Url
  pub is_loopback_ip : String → Bool

pub data UnsafeReason : Type 0 where
  unparseable base_invalid missing_host other_host other_scheme : UnsafeReason

pub data FetchError : Type 0 where
  auth too_many_pages cancelled transient permanent gave_up : FetchError
  unsafe_next_url : UnsafeReason → FetchError

unfoldable pub is_loopback_host : UrlLib → String → Bool
is_loopback_host lib host = if host == "localhost" then true else lib.is_loopback_ip host

-- The link against the configured tenant.
unfoldable pub check_next_url : UrlLib → Url → Url → Result FetchError Text
unfolding is_loopback_host
check_next_url lib base next =
    if is_empty next.host
    then err (unsafe_next_url missing_host)
    else if not (bytes_eq next.host base.host)
    then err (unsafe_next_url other_host)
    else if next.scheme == "https"
    then ok next.text
    else if (next.scheme == "http") && is_loopback_host lib next.hostname
    then ok next.text
    else err (unsafe_next_url other_scheme)

abbrev check_base : UrlLib → Option Url → Url → Result FetchError Text
check_base lib none next = err (unsafe_next_url base_invalid)
check_base lib (some base) next = check_next_url lib base next

unfoldable pub validate_next_url : UrlLib → Text → Text → Result FetchError Text
unfolding check_next_url
validate_next_url lib base_url raw = elim (lib.parse (trim_space raw)) [
  | none ↦ err (unsafe_next_url unparseable)
  | some next ↦ check_base lib (lib.parse base_url) next
]

unfoldable pub index_of : ℕ → Text → Option ℕ
index_of a [] = none
index_of a (b ∷ r) =
    let rest = index_of a r in
    if eqb a b then some 0 else elim rest [ none ↦ none | some i ↦ some (i + 1) ]

abbrev is_next_attribute : Text → Bool
is_next_attribute attr = is_prefix (codes "rel=\"next\"") attr || bytes_eq attr (codes "rel=next")

-- The target of one part of the header, if it is the next page.
abbrev link_between : Text → Option ℕ → Option ℕ → Option Text
link_between part (some lt) (some gt) =
    let link = take (gt - (lt + 1)) (drop (lt + 1) part) in
    let attributes = split b';' (map lower (drop (gt + 1) part)) in
    if ltb gt lt
    then none
    else if exists_in (λ attr. is_next_attribute (trim_space attr)) attributes
    then some link
    else none
link_between part _ _ = none

unfoldable pub first_next : List Text → Text
unfolding drop index_of split
first_next [] = []
first_next (part ∷ r) =
    let rest = first_next r in
    elim (link_between part (index_of b'<' part) (index_of b'>' part)) [
      | none ↦ rest
      | some link ↦ link
    ]

-- The empty text is the last page's.
unfoldable pub next_link : Text → Text
unfolding first_next split
next_link header = first_next (split b',' header)

-- What a request brings: no reply, or a status, the decoded events, and the `Link` header.
pub data Reply : Type 0 where
  no_reply : Reply
  reply : ℕ → Option (List LogEvent) → Text → Reply

-- The requests so far decide what the server answers and whether the context is done.
pub record World : Type 0 where
  pub answer : List Text → Text → Reply
  pub done_waiting : List Text → Bool
  pub done : List Text → Bool

pub record Page : Type 0 where
  pub events : List LogEvent
  pub next : Text

abbrev decoded : Option (List LogEvent) → Text → Result FetchError Page
decoded none link = err transient
decoded (some events) link = ok (record { events = events; next = next_link link })

unfoldable pub page_of : Reply → Result FetchError Page
unfolding next_link
page_of no_reply = err transient
page_of (reply status body link) =
    if eqb status 200
    then decoded body link
    else if eqb status 401 || eqb status 403
    then err auth
    else if eqb status 429
    then err transient
    else if leb 500 status
    then err transient
    else err permanent

-- The request is made, with the credential, unless its URL does not parse.
unfoldable pub do_fetch_page :
    UrlLib → World → Text → List Text → Result FetchError Page × List Text
unfolding page_of
do_fetch_page lib w page_url log = elim (lib.parse page_url) [
  | none ↦ (err permanent, log)
  | some u ↦ (page_of (w.answer log page_url), log ++ page_url ∷ [])
]

abbrev pub max_attempts : ℕ
max_attempts = 5

-- What follows an attempt; `again` is the rest of the loop.
abbrev after_attempt :
    World
    → Result FetchError Page × List Text
    → (List Text → Result FetchError Page × List Text)
    → Result FetchError Page × List Text
after_attempt w (ok page, log) again = (ok page, log)
after_attempt w (err auth, log) again = (err auth, log)
after_attempt w (err transient, log) again = if w.done log then (err cancelled, log) else again log
after_attempt w (err e, log) again = if w.done log then (err cancelled, log) else (err e, log)

-- The attempts that are left after the first one, each after a wait.
unfoldable pub retry_page :
    UrlLib → World → Text → ℕ → List Text → Result FetchError Page × List Text
unfolding do_fetch_page
retry_page lib w page_url zero log = (err gave_up, log)
retry_page lib w page_url (suc k) log =
    if w.done_waiting log
    then (err cancelled, log)
    else after_attempt w (do_fetch_page lib w page_url log) (λ l. retry_page lib w page_url k l)

unfoldable pub fetch_page : UrlLib → World → Text → List Text → Result FetchError Page × List Text
unfolding do_fetch_page retry_page
fetch_page lib w page_url log =
    after_attempt w (do_fetch_page lib w page_url log)
      (λ l. retry_page lib w page_url (max_attempts - 1) l)

-- The events so far, the error if there is one, and the requests that were made.
pub record Fetch : Type 0 where
  pub events : List LogEvent
  pub error : Option FetchError
  pub requests : List Text

abbrev stop : List LogEvent → List Text → Option FetchError → Fetch
stop out log e = record { events = out; error = e; requests = log }

-- The URL of the page that follows, or no URL.
unfoldable pub following : UrlLib → Text → Text → Result FetchError Text
unfolding validate_next_url
following lib base_url next = if is_empty next then ok [] else validate_next_url lib base_url next

-- The loop, with the number of pages that may still be fetched.
unfoldable pub fetch_pages : UrlLib → World → Text → ℕ → Text → List LogEvent → List Text → Fetch
unfolding fetch_page following
fetch_pages lib w base_url left [] out log = stop out log none
fetch_pages lib w base_url zero (c ∷ url) out log = stop out log (some too_many_pages)
fetch_pages lib w base_url (suc left) (c ∷ url) out log =
    let (r, log') = fetch_page lib w (c ∷ url) log in
    elim r [
      | err e ↦ stop out log' (some e)
      | ok page ↦ elim (following lib base_url page.next) [
        | err e ↦ stop (out ++ page.events) log' (some e)
        | ok next ↦ fetch_pages lib w base_url left next (out ++ page.events) log'
      ]
    ]

-- The caller's limits, in range.
unfoldable pub page_limit : ℤ → ℕ
page_limit (negsuc n) = 500
page_limit (pos n) = if eqb n 0 then 500 else if ltb 1000 n then 1000 else n

unfoldable pub page_cap : ℤ → ℕ
page_cap (negsuc n) = 50
page_cap (pos n) = if eqb n 0 then 50 else n

abbrev millisecond : Time
millisecond = 1000000

-- `query` encodes the limit, the order and the bounds on the time; the lower one lies a millisecond
-- before the cursor, since Okta leaves it out.
unfoldable pub fetch_logs :
    UrlLib → World → Text → (ℕ → Option Time → Option Time → Text) → Time → Time → ℤ → ℤ → Fetch
unfolding page_limit page_cap fetch_pages
fetch_logs lib w base_url query since until limit max_pages =
    let from = if eqb since 0 then none else some (since - millisecond) in
    let to = if eqb until 0 then none else some until in
    fetch_pages lib w base_url (page_cap max_pages)
      (base_url ++ codes "/api/v1/logs?" ++ query (page_limit limit) from to) [] []
