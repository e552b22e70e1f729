-- ===== src/Auth/Laws.antt =====
-- Which tokens are let through: core/internal/auth.
use oiaf.Base.{
  true, false, String, ◌==◌, ◌≡◌, refl, ◌⊎◌, inl, inr, none, some, List, [], ◌∷◌, arith, In,
  Bool-cases, Option-cases,
}
use oiaf.Base.Table
use oiaf.Base.Table.{get-put_self, In-values}
use oiaf.Base.Action.{ok, err}
use oiaf.Types.Enums.{Role}
use oiaf.Types.Entities.{Time, AuthToken}
use oiaf.Types.Errors.{invalid_token}
use oiaf.Storage.AuthTokens
use oiaf.Storage.State.{Store}
use oiaf.Auth.{
  Bcrypt, new_token, is_expired, accepts, first_accepted, validate, register_token, trim_prefix,
  next, middleware,
}

first_accepted-cases :
    (b : Bcrypt) (clock : AuthToken → Time) (token_str : String) (ts : List AuthToken)
    → ((first_accepted b clock token_str ts ≡ none)
        × ((t : AuthToken) → In t ts → accepts b clock token_str t ≡ false))
      ⊎ ((t : AuthToken) × (first_accepted b clock token_str ts ≡ some t)
          × In t ts
          × (accepts b clock token_str t ≡ true))
unfolding first_accepted
first_accepted-cases b clock token_str [] = inl (refl, λ t i. absurd i)
first_accepted-cases b clock token_str (x ∷ r) = elim (Bool-cases (accepts b clock token_str x)) [
  | inl p ↦ inr (x, rw p refl, inl refl, p)
  | inr p ↦ elim (first_accepted-cases b clock token_str r) [
    | inl (e, nobody) ↦
        inl (rw (p, e) refl, λ t i. elim i [ inl same ↦ rw (← same) p | inr j ↦ nobody t j ])
    | inr (t, e, i, a) ↦ inr (t, rw (p, e) refl, inr i, a)
  ]
]

-- `Validate` changes nothing and lets a text through exactly if a stored token that is neither
-- revoked nor expired has a hash that it matches; the token it returns is such a token.
pub validate_sound :
    (b : Bcrypt) (clock : AuthToken → Time) (token_str : String) (s : Store)
    → ((validate b clock token_str s ≡ (err invalid_token, s))
        × ((t : AuthToken)
            → In t (Table.values s.auth_tokens)
            → accepts b clock token_str t ≡ false))
      ⊎ ((t : AuthToken) × (validate b clock token_str s ≡ (ok t, s))
          × In t (Table.values s.auth_tokens)
          × (t.revoked ≡ false)
          × (is_expired (clock t) t.expires_at ≡ false)
          × (b.compare t.token_hash token_str ≡ true))
unfolding validate accepts
validate_sound b clock token_str s =
    elim (first_accepted-cases b clock token_str (Table.values s.auth_tokens)) [
      | inl (e, nobody) ↦ inl (rw e refl, nobody)
      | inr (t, e, i, a) ↦ inr (t, rw e refl, i, ground arith, ground arith, ground arith)
    ]

-- A text that was registered as a token is let through at once, given that bcrypt accepts a
-- password for the hash that it made of it. The token returned may be another one that matches.
pub register-validate :
    (b : Bcrypt) (id : String) (now : Time) (clock : AuthToken → Time) (plain_token name : String)
    (role : Role) (s t : Store) (tok : AuthToken)
    → ((hash : String) → b.generate plain_token ≡ some hash → b.compare hash plain_token ≡ true)
    → register_token b id now plain_token name role s ≡ (ok tok, t)
    → (found : AuthToken) × (validate b clock plain_token t ≡ (ok found, t))
unfolding register_token accepts AuthTokens.create
register-validate b id now clock plain_token name role s t tok law h =
    elim (validate_sound b clock plain_token t) [
      | inr (found, e, _, _, _, _) ↦ (found, e)
      | inl (e, nobody) ↦ elim (Option-cases (b.generate plain_token)) [
        | inl p ↦ cc (rw (register_token, p) at h)
        | inr (hash, p) ↦
            let q = rw (register_token, p) at h in
            let stored =
              In-values t.auth_tokens id (new_token id now hash name role)
                (ground (arith, get-put_self s.auth_tokens id (new_token id now hash name role))) in
            cc (nobody (new_token id now hash name role) stored, law hash p)
      ]
    ]

-- A request reaches the next handler only with a header `Bearer …` whose rest a stored token
-- matches that is neither revoked nor expired.
pub middleware-next :
    (b : Bcrypt) (clock : AuthToken → Time) (header : String) (s : Store) (tok : AuthToken)
    → middleware b clock header s ≡ next tok
    → (trim_prefix header "Bearer " == header ≡ false)
      × In tok (Table.values s.auth_tokens)
      × (tok.revoked ≡ false)
      × (is_expired (clock tok) tok.expires_at ≡ false)
      × (b.compare tok.token_hash (trim_prefix header "Bearer ") ≡ true)
unfolding middleware
middleware-next b clock header s tok h =
    elim (validate_sound b clock (trim_prefix header "Bearer ") s) [
      | inl (e, _) ↦ ground arith
      | inr (t, e, i, r, x, c) ↦ ground arith
    ]
