-- ===== src/Okta/Pages/Attempts.antt =====
-- The attempts at one page in adapters/okta/client.go.
use oiaf.Base.{
  ℕ, zero, suc, ◌+◌, ◌≤◌, ◌≡◌, sym, ◌⊎◌, inl, inr, List, [], ◌∷◌, In, arith, Bool-cases,
  Option-cases, length, length-append, In-snoc, if◌then◌else◌,
}
use oiaf.Base.Action.{Result, ok, err}
use oiaf.Okta.Pages.{
  Text, UrlLib, FetchError, World, Page, do_fetch_page, after_attempt, retry_page, fetch_page,
  max_attempts, auth, transient, cancelled, permanent, gave_up, too_many_pages, unsafe_next_url,
}

-- A page is asked for with its own URL only, and at most five times.
pub record IsPolite (url : Text) (before after : List Text) (tries : ℕ) : Type 0 where
  pub kept : (u : Text) → In u after → In u before ⊎ (u ≡ url)
  pub few : length after ≤ length before + tries

pub do_fetch_page-IsPolite :
    (lib : UrlLib) (w : World) (url : Text) (log : List Text)
    → IsPolite url log (do_fetch_page lib w url log).1 1
unfolding do_fetch_page
do_fetch_page-IsPolite lib w url log = elim (Option-cases (lib.parse url)) [
  | inl e ↦ rw (e, do_fetch_page) (record { kept = λ u i. inl i; few = omega arith })
  | inr (v, e) ↦
      rw (e, do_fetch_page)
        (record {
          kept = λ u i. elim (In-snoc u url log i) [ inl j ↦ inl j | inr q ↦ inr (sym q) ];
          few = omega (arith, length-append log (url ∷ []));
        })
]

pub IsPolite-trans :
    (url : Text) (a b c : List Text) (m n : ℕ)
    → IsPolite url a b m
    → IsPolite url b c n
    → IsPolite url a c (m + n)
IsPolite-trans url a b c m n p q = record {
  kept = λ u i. elim (q.kept u i) [ inl j ↦ p.kept u j | inr e ↦ inr e ];
  few = omega (arith, p.few, q.few);
}

pub IsPolite-more :
    (url : Text) (a b : List Text) (m n : ℕ) → m ≤ n → IsPolite url a b m → IsPolite url a b n
IsPolite-more url a b m n l p = record { kept = p.kept; few = omega (arith, p.few) }

abbrev pub refusal : World → FetchError → List Text → Result FetchError Page × List Text
refusal w e b = if w.done b then (err cancelled, b) else (err e, b)

pub refused-IsPolite :
    (w : World) (url : Text) (a b : List Text) (e : FetchError) (m n : ℕ)
    → IsPolite url a b m
    → IsPolite url a (refusal w e b).1 (m + n)
refused-IsPolite w url a b e m n p = elim (Bool-cases (w.done b)) [
  | inl d ↦ rw d (IsPolite-more url a b m (m + n) (omega arith) p)
  | inr d ↦ rw d (IsPolite-more url a b m (m + n) (omega arith) p)
]

pub after_attempt-IsPolite :
    (w : World) (url : Text) (a b : List Text) (r : Result FetchError Page)
    (again : List Text → Result FetchError Page × List Text) (m n : ℕ)
    → IsPolite url a b m
    → IsPolite url b (again b).1 n
    → IsPolite url a (after_attempt w (r, b) again).1 (m + n)
after_attempt-IsPolite w url a b (ok page) again m n p q =
    IsPolite-more url a b m (m + n) (omega arith) p
after_attempt-IsPolite w url a b (err auth) again m n p q =
    IsPolite-more url a b m (m + n) (omega arith) p
after_attempt-IsPolite w url a b (err transient) again m n p q = elim (Bool-cases (w.done b)) [
  | inl d ↦ rw d (IsPolite-more url a b m (m + n) (omega arith) p)
  | inr d ↦ rw d (IsPolite-trans url a b (again b).1 m n p q)
]
after_attempt-IsPolite w url a b (err too_many_pages) again m n p q =
    refused-IsPolite w url a b too_many_pages m n p
after_attempt-IsPolite w url a b (err cancelled) again m n p q =
    refused-IsPolite w url a b cancelled m n p
after_attempt-IsPolite w url a b (err permanent) again m n p q =
    refused-IsPolite w url a b permanent m n p
after_attempt-IsPolite w url a b (err gave_up) again m n p q =
    refused-IsPolite w url a b gave_up m n p
after_attempt-IsPolite w url a b (err (unsafe_next_url e)) again m n p q =
    refused-IsPolite w url a b (unsafe_next_url e) m n p

pub retry_page-IsPolite :
    (lib : UrlLib) (w : World) (url : Text) (k : ℕ) (log : List Text)
    → IsPolite url log (retry_page lib w url k log).1 k
unfolding retry_page
retry_page-IsPolite lib w url zero log = record { kept = λ u i. inl i; few = omega arith }
retry_page-IsPolite lib w url (suc k) log = elim (Bool-cases (w.done_waiting log)) [
  | inl d ↦ rw d (record { kept = λ u i. inl i; few = omega arith })
  | inr d ↦ rw d (
      IsPolite-more url log _ (1 + k) (suc k) (omega arith) (
        after_attempt-IsPolite w url log (do_fetch_page lib w url log).1
          (do_fetch_page lib w url log).0 (λ l. retry_page lib w url k l) 1 k
          (do_fetch_page-IsPolite lib w url log)
          (retry_page-IsPolite lib w url k (do_fetch_page lib w url log).1)))
]

pub fetch_page-IsPolite :
    (lib : UrlLib) (w : World) (url : Text) (log : List Text)
    → IsPolite url log (fetch_page lib w url log).1 max_attempts
unfolding fetch_page
fetch_page-IsPolite lib w url log =
    after_attempt-IsPolite w url log (do_fetch_page lib w url log).1 (do_fetch_page lib w url log).0
      (λ l. retry_page lib w url 4 l) 1 4 (do_fetch_page-IsPolite lib w url log)
      (retry_page-IsPolite lib w url 4 (do_fetch_page lib w url log).1)
