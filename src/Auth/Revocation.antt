-- ===== src/Auth/Revocation.antt =====
-- A revoked token is never let through again: core/internal/auth/auth.go, `Revoke`.
use mathlib.Core.Path.{subst}
use oiaf.Base.{
  ap, sym, ◌∙◌, true, String, ◌==◌, ◌≡◌, ◌≢◌, inl, inr, some, arith, Bool-cases, Option-cases,
  str_eq→eq,
}
use oiaf.Base.Table
use oiaf.Base.Table.{Table, Distinct, put-Distinct, values-get, get-put, get-put_self}
use oiaf.Base.Action.{ok_pair, ok}
use oiaf.Types.Entities.{Time, AuthToken}
use oiaf.Storage.AuthTokens
use oiaf.Storage.State.{Store}
use oiaf.Auth.Laws.{validate_sound}
use oiaf.Auth.{Bcrypt, validate, revoke}
use oiaf.Auth.Laws.{validate_sound}

-- Every token stands once, under its identifier.
pub record IsKept (s : Store) : Type 0 where
  pub distinct : Distinct s.auth_tokens
  pub at : (k : String) (t : AuthToken) → Table.get s.auth_tokens k ≡ some t → t.id ≡ k

put-IsKept :
    (s u : Store) (k : String) (tok : AuthToken)
    → IsKept s
    → tok.id ≡ k
    → u.auth_tokens ≡ Table.put s.auth_tokens k tok
    → IsKept u
put-IsKept s u k tok i same e = record {
  distinct = rw e (put-Distinct s.auth_tokens k tok i.distinct);
  at = λ j t h. elim (Bool-cases (k == j)) [
    | inl p ↦ let q : some tok ≡ some t = rw (e, get-put, p) at h in cc (q, str_eq→eq k j p, same)
    | inr p ↦ i.at j t (rw (e, get-put, p) at h)
  ];
}

revoke-puts :
    (id : String) (s u : Store)
    → revoke id s ≡ (ok tt, u)
    → (t : AuthToken) × (Table.get s.auth_tokens id ≡ some t)
      × (u.auth_tokens ≡ Table.put s.auth_tokens id (record t { revoked = true }))
unfolding revoke AuthTokens.revoke
revoke-puts id s u h = elim (Option-cases (Table.get s.auth_tokens id)) [
  | inl p ↦ absurd (ground arith)
  | inr (t, p) ↦ (t, p, ground arith)
]

-- Revoking a token keeps every token once, under its identifier.
pub revoke-IsKept : (id : String) (s u : Store) → IsKept s → revoke id s ≡ (ok tt, u) → IsKept u
revoke-IsKept id s u i h =
    let (t, found, e) = revoke-puts id s u h in
    put-IsKept s u id (record t { revoked = true }) i (i.at id t found) e

-- Once `Revoke` has succeeded for an identifier, `Validate` lets no token of that identifier
-- through, whatever the text and the time, where every stored token stood once, under its
-- identifier.
pub validate-revoke :
    (b : Bcrypt) (clock : AuthToken → Time) (token_str id : String) (s u v : Store)
    (tok : AuthToken)
    → IsKept s
    → revoke id s ≡ (ok tt, u)
    → validate b clock token_str u ≡ (ok tok, v)
    → tok.id ≢ id
validate-revoke b clock token_str id s u v tok i h w same =
    elim (validate_sound b clock token_str u) [
      | inl (e, _) ↦ cc (ap (λ r. r.0) e, ap (λ r. r.0) w)
      | inr (t, e, stored, live, _, _) ↦
          let kept = revoke-IsKept id s u i h in
          let (old, found, put) = revoke-puts id s u h in
          let (k, at) = values-get u.auth_tokens t kept.distinct stored in
          let tok_t = (ok_pair t tok u v (sym e ∙ w)).0 in
          let k_id : k ≡ id = sym (kept.at k t at) ∙ ap (λ x. x.id) tok_t ∙ same in
          let here : Table.get u.auth_tokens id ≡ some t =
            subst (λ j. Table.get u.auth_tokens j ≡ some t) k_id at in
          let there : Table.get u.auth_tokens id ≡ some (record old { revoked = true }) =
            ap (λ x. Table.get x id) put
            ∙ get-put_self s.auth_tokens id (record old { revoked = true }) in
          let same_token : some t ≡ some (record old { revoked = true }) = sym here ∙ there in
          cc (live, same_token)
    ]
