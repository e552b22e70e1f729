-- ===== src/Okta/Pages/Tenant.antt =====
-- The links that adapters/okta/client.go accepts.
use oiaf.Base.{
  ◌≢◌, [], ◌≡◌, refl, sym, ◌∙◌, ◌⊎◌, inl, inr, true, ◌==◌, none, some, arith, Bool-cases,
  Option-cases, bytes_eq→eq, str_eq→eq, and-eq_true,
}
use oiaf.Base.Action.{ok, err}
use oiaf.Strconv.{trim_space}
use oiaf.Okta.Pages.{
  Text, Url, UrlLib, is_loopback_host, check_next_url, validate_next_url, unsafe_next_url,
  unparseable, base_invalid,
}

-- The scheme keeps the credential off the network in the clear.
abbrev pub IsProtected : UrlLib → Url → Type 0
IsProtected lib u =
    (u.scheme ≡ "https") ⊎ ((u.scheme ≡ "http") × (is_loopback_host lib u.hostname ≡ true))

-- The text that the URL library writes for a URL which it read from a link, where that URL is on the
-- host that it reads from the configured URL, and protected.
pub record IsTenant (lib : UrlLib) (base_url : Text) (t : Text) : Type 0 where
  pub link : Text
  pub base : Url
  pub url : Url
  pub link_parsed : lib.parse (trim_space link) ≡ some url
  pub base_parsed : lib.parse base_url ≡ some base
  pub is_text : url.text ≡ t
  pub same_host : url.host ≡ base.host
  pub protected : IsProtected lib url

pub check_next_url-IsProtected :
    (lib : UrlLib) (t : Text) (base next : Url)
    → check_next_url lib base next ≡ ok t
    → IsProtected lib next
unfolding check_next_url
check_next_url-IsProtected lib t base next h = elim (Bool-cases (next.scheme == "https")) [
  | inl p ↦ inl (str_eq→eq next.scheme "https" p)
  | inr p ↦
      let (q, l) =
        and-eq_true (next.scheme == "http") (is_loopback_host lib next.hostname) (ground arith) in
      inr (str_eq→eq next.scheme "http" q, l)
]

pub check_next_url-IsTenant :
    (lib : UrlLib) (base_url raw t : Text) (base next : Url)
    → lib.parse (trim_space raw) ≡ some next
    → lib.parse base_url ≡ some base
    → check_next_url lib base next ≡ ok t
    → IsTenant lib base_url t
unfolding check_next_url
check_next_url-IsTenant lib base_url raw t base next r e h = record {
  link = raw;
  base = base;
  url = next;
  link_parsed = r;
  base_parsed = e;
  is_text = ground arith;
  same_host = bytes_eq→eq next.host base.host (ground arith);
  protected = check_next_url-IsProtected lib t base next h;
}

module _ (lib : UrlLib) (base_url raw : Text) where
  pub validate-none :
      lib.parse (trim_space raw) ≡ none
      → validate_next_url lib base_url raw ≡ err (unsafe_next_url unparseable)
  unfolding validate_next_url
  validate-none e = rw (e, validate_next_url) refl

  pub validate-base :
      (next : Url)
      → lib.parse (trim_space raw) ≡ some next
      → lib.parse base_url ≡ none
      → validate_next_url lib base_url raw ≡ err (unsafe_next_url base_invalid)
  unfolding validate_next_url
  validate-base next e f = rw (e, f, validate_next_url) refl

  pub validate-some :
      (base next : Url)
      → lib.parse (trim_space raw) ≡ some next
      → lib.parse base_url ≡ some base
      → validate_next_url lib base_url raw ≡ check_next_url lib base next
  unfolding validate_next_url
  validate-some base next e f = rw (e, f, validate_next_url) refl

pub validate_next_url-IsTenant :
    (lib : UrlLib) (base_url raw t : Text)
    → validate_next_url lib base_url raw ≡ ok t
    → IsTenant lib base_url t
validate_next_url-IsTenant lib base_url raw t h = elim (Option-cases (lib.parse (trim_space raw))) [
  | inl e ↦ absurd (refuted e)
  | inr (next, e) ↦ elim (Option-cases (lib.parse base_url)) [
    | inl f ↦ absurd (refuted_base next e f)
    | inr (base, f) ↦
        check_next_url-IsTenant lib base_url raw t base next e f (checked base next e f)
  ]
]
  where
    refuted : lib.parse (trim_space raw) ≡ none → ⊥
    refuted e = ground (arith, validate-none lib base_url raw e)

    refuted_base :
        (next : Url) → lib.parse (trim_space raw) ≡ some next → lib.parse base_url ≡ none → ⊥
    refuted_base next e f = ground (arith, validate-base lib base_url raw next e f)

    checked :
        (base next : Url)
        → lib.parse (trim_space raw) ≡ some next
        → lib.parse base_url ≡ some base
        → check_next_url lib base next ≡ ok t
    checked base next e f = sym (validate-some lib base_url raw base next e f) ∙ h

-- What `String` writes of a URL with a host is read as a URL of the same scheme and host.
pub record IsFaithful (lib : UrlLib) : Type 0 where
  pub again :
      (raw : Text) (u : Url)
      → lib.parse raw ≡ some u
      → u.host ≢ []
      → (v : Url) × (lib.parse u.text ≡ some v)
        × (v.scheme ≡ u.scheme)
        × (v.host ≡ u.host)
        × (v.hostname ≡ u.hostname)

-- With such a library, and a configured URL that has a host, the text of a link that was accepted is
-- read as a URL on the configured host whose scheme protects the credential.
IsTenant-parsed :
    (lib : UrlLib) (base_url t : Text)
    → IsFaithful lib
    → (i : IsTenant lib base_url t) → i.base.host ≢ []
    → (v : Url) × (lib.parse t ≡ some v) × (v.host ≡ i.base.host) × IsProtected lib v
IsTenant-parsed lib base_url t f i n =
    let (v, p, scheme, host, name) =
      f.again (trim_space i.link) i.url i.link_parsed (λ e. n (sym i.same_host ∙ e)) in
    (v, rw (← i.is_text) p, host ∙ i.same_host, rw (scheme, name) i.protected)
