-- ===== src/Okta/Pages/Hosts.antt =====
-- Where adapters/okta/client.go sends its credential, and how often.
use oiaf.Base.{
  ℕ, ℤ, zero, suc, ◌+◌, ◌-◌, ◌*◌, ◌≤◌, ◌≡◌, refl, ◌⊎◌, inl, inr, Option, none, some, List, [], ◌∷◌,
  ◌++◌, In, arith, codes, length, eqb, if◌then◌else◌,
}
use oiaf.Base.Action.{ok, err, Result-cases}
use oiaf.Types.Entities.{Time}
use oiaf.Okta.Events.{LogEvent}
use oiaf.Okta.Pages.{
  Text, UrlLib, FetchError, World, Page, following, fetch_page, fetch_pages, fetch_logs, page_cap,
  page_limit, max_attempts,
}
use oiaf.Okta.Pages.Tenant.{IsTenant, validate_next_url-IsTenant}
use oiaf.Okta.Pages.Attempts.{fetch_page-IsPolite}

-- The URLs that are asked for: the first one, or one of the tenant.
abbrev IsAllowed : UrlLib → Text → Text → Text → Type 0
IsAllowed lib base_url first u = (u ≡ first) ⊎ IsTenant lib base_url u

module _ (lib : UrlLib) (w : World) (base_url first : Text) where
  pub record AreAllowed (log : List Text) : Type 0 where
    pub allowed : (u : Text) → In u log → IsAllowed lib base_url first u

  page-AreAllowed :
      (url : Text) (log : List Text)
      → IsAllowed lib base_url first url
      → AreAllowed log
      → AreAllowed (fetch_page lib w url log).1
  page-AreAllowed url log own h = record {
    allowed = λ u i. elim ((fetch_page-IsPolite lib w url log).kept u i) [
      | inl j ↦ h.allowed u j
      | inr e ↦ rw e own
    ];
  }

  -- The page that follows is the tenant's, if there is one.
  following-IsTenant :
      (next t : Text) (c : ℕ)
      → following lib base_url next ≡ ok (c ∷ t)
      → IsTenant lib base_url (c ∷ t)
  unfolding following
  following-IsTenant [] t c h = cc
  following-IsTenant (a ∷ next) t c h = validate_next_url-IsTenant lib base_url (a ∷ next) (c ∷ t) h

  -- The requests of the loop: those of this page, and those of the others if one follows.
  module _ (left c : ℕ) (url : Text) (out : List LogEvent) (log : List Text) where
    requests-failed :
        (e : FetchError)
        → (fetch_page lib w (c ∷ url) log).0 ≡ err e
        → (fetch_pages lib w base_url (suc left) (c ∷ url) out log).requests
          ≡ (fetch_page lib w (c ∷ url) log).1
    unfolding fetch_pages
    requests-failed e h = rw (h, fetch_pages) refl

    requests-unsafe :
        (page : Page) (e : FetchError)
        → (fetch_page lib w (c ∷ url) log).0 ≡ ok page
        → following lib base_url page.next ≡ err e
        → (fetch_pages lib w base_url (suc left) (c ∷ url) out log).requests
          ≡ (fetch_page lib w (c ∷ url) log).1
    unfolding fetch_pages
    requests-unsafe page e h f = rw (h, f, fetch_pages) refl

    requests-next :
        (page : Page) (next : Text)
        → (fetch_page lib w (c ∷ url) log).0 ≡ ok page
        → following lib base_url page.next ≡ ok next
        → (fetch_pages lib w base_url (suc left) (c ∷ url) out log).requests
          ≡ (fetch_pages lib w base_url left next
              (out ++ page.events)
              (fetch_page lib w (c ∷ url) log).1).requests
    unfolding fetch_pages
    requests-next page next h f = rw (h, f, fetch_pages) refl

    requests_cases :
        (P : List Text → Type 0)
        → P (fetch_page lib w (c ∷ url) log).1
        → ((page : Page) (next : Text)
            → following lib base_url page.next ≡ ok next
            → P
                (fetch_pages lib w base_url left next
                  (out ++ page.events)
                  (fetch_page lib w (c ∷ url) log).1).requests)
        → P (fetch_pages lib w base_url (suc left) (c ∷ url) out log).requests
    requests_cases P done more = elim (Result-cases (fetch_page lib w (c ∷ url) log).0) [
      | inr (e, h) ↦ rw (requests-failed e h) done
      | inl (page, h) ↦ elim (Result-cases (following lib base_url page.next)) [
        | inr (e, f) ↦ rw (requests-unsafe page e h f) done
        | inl (next, f) ↦ rw (requests-next page next h f) (more page next f)
      ]
    ]

  next-IsAllowed :
      (next t : Text)
      → following lib base_url next ≡ ok t
      → (t ≡ []) ⊎ IsAllowed lib base_url first t
  next-IsAllowed next [] h = inl refl
  next-IsAllowed next (c ∷ t) h = inr (inr (following-IsTenant next t c h))

  fetch_pages-AreAllowed :
      (left : ℕ) (url : Text) (out : List LogEvent) (log : List Text)
      → (url ≡ []) ⊎ IsAllowed lib base_url first url
      → AreAllowed log
      → AreAllowed (fetch_pages lib w base_url left url out log).requests
  unfolding fetch_pages
  fetch_pages-AreAllowed left [] out log u h = h
  fetch_pages-AreAllowed zero (c ∷ url) out log u h = h
  fetch_pages-AreAllowed (suc left) (c ∷ url) out log (inl e) h = cc
  fetch_pages-AreAllowed (suc left) (c ∷ url) out log (inr u) h =
      let mine = page-AreAllowed (c ∷ url) log u h in
      requests_cases left c url out log AreAllowed mine (λ page next f.
        fetch_pages-AreAllowed left next (out ++ page.events) _ (next-IsAllowed page.next next f)
          mine)

  fetch_pages-few :
      (left : ℕ) (url : Text) (out : List LogEvent) (log : List Text)
      → length (fetch_pages lib w base_url left url out log).requests
        ≤ length log + left * max_attempts
  unfolding fetch_pages
  fetch_pages-few left [] out log = omega arith
  fetch_pages-few zero (c ∷ url) out log = omega arith
  fetch_pages-few (suc left) (c ∷ url) out log =
      let few = (fetch_page-IsPolite lib w (c ∷ url) log).few in
      requests_cases left c url out log (λ q. length q ≤ length log + suc left * 5)
        (omega (arith, few))
        (λ page next f. omega (
          arith,
          few,
          fetch_pages-few left next (out ++ page.events) (fetch_page lib w (c ∷ url) log).1,
        ))

-- The URL of the first page.
abbrev pub first_url : Text → (ℕ → Option Time → Option Time → Text) → Time → Time → ℤ → Text
first_url base_url query since until limit =
    base_url
    ++ codes "/api/v1/logs?"
    ++ query (page_limit limit) (if eqb since 0 then none else some (since - 1000000))
        (if eqb until 0 then none else some until)

-- Whatever the server answers, its links included, the client sends its credential only to the first
-- page's URL and to texts that the URL library writes for a URL which it read from a link and which
-- is on the configured host, over https or, on the machine itself, http; and a fetch ends after no
-- more than five requests for each page up to the cap on pages.
pub fetch_logs-AreAllowed :
    (lib : UrlLib) (w : World) (base_url : Text) (query : ℕ → Option Time → Option Time → Text)
    (since until : Time) (limit max_pages : ℤ)
    → AreAllowed lib w base_url
        (first_url base_url query since until limit)
        (fetch_logs lib w base_url query since until limit max_pages).requests
      × (length (fetch_logs lib w base_url query since until limit max_pages).requests
          ≤ page_cap max_pages * 5)
unfolding fetch_logs
fetch_logs-AreAllowed lib w base_url query since until limit max_pages =
    let first = first_url base_url query since until limit in
    (
      fetch_pages-AreAllowed lib w base_url first (page_cap max_pages) first [] [] (inr (inl refl))
          (record { allowed = λ u i. absurd i }),
      omega (arith, fetch_pages-few lib w base_url first (page_cap max_pages) first [] []),
    )
