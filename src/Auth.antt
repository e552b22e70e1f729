-- ===== src/Auth.antt =====
-- Bearer tokens: core/internal/auth/auth.go and core/internal/auth/middleware.go. The hashes are
-- golang.org/x/crypto/bcrypt's, a parameter.
pub mod Laws
pub mod Revocation
use Prim.Native.Char
use oiaf.Base.{
  ℕ, Bool, true, false, not, ◌&&◌, String, ◌==◌, Option, none, some, List, [], ◌∷◌, ltb, eqb,
  exists_in, if◌then◌else◌,
}
use oiaf.Base.Action.{Result, ok, err, lift, pure, ◌>>=◌, ◌>>◌}
use oiaf.Types.Enums.{Role, role_eq}
use oiaf.Types.Entities.{Time, AuthToken}
use oiaf.Types.Errors.{Error, invalid_token, external}
use oiaf.Storage.State.{Store, Db}
use oiaf.Storage.AuthTokens

-- `GenerateFromPassword` fails or gives a hash; `CompareHashAndPassword(hash, password) == nil`.
pub record Bcrypt : Type 0 where
  pub generate : String → Option String
  pub compare : String → String → Bool

abbrev pub new_token : String → Time → String → String → Role → AuthToken
new_token id now hash name role = record {
  id = id;
  token_hash = hash;
  role = role;
  name = name;
  expires_at = none;
  revoked = false;
  created_at = now;
}

unfoldable pub register_token : Bcrypt → String → Time → String → String → Role → Db AuthToken
unfolding AuthTokens.create
register_token b id now plain_token name role = elim (b.generate plain_token) [
  | none ↦ lift (err (external "hash token"))
  | some hash ↦ (do
    AuthTokens.create (new_token id now hash name role)
    pure (new_token id now hash name role))
]

-- The random bytes in hexadecimal, if the random source gives any.
unfoldable pub create_token :
    Bcrypt → String → Time → Option String → String → Role → Db (String × AuthToken)
unfolding register_token
create_token b id now none name role = lift (err (external "generate token"))
create_token b id now (some token_str) name role = do
  tok ← register_token b id now token_str name role
  pure (token_str, tok)

-- `GenerateToken`: the random bytes in hexadecimal, if the random source gives any.
unfoldable pub generate_token : Option String → Result Error String
generate_token none = err (external "rand")
generate_token (some text) = ok text

unfoldable pub hash_token : Bcrypt → String → Result Error String
hash_token b plain = elim (b.generate plain) [ none ↦ err (external "bcrypt") | some h ↦ ok h ]

-- `tok.ExpiresAt != nil && time.Now().After(*tok.ExpiresAt)`
abbrev pub is_expired : Time → Option Time → Bool
is_expired now none = false
is_expired now (some at) = ltb at now

-- The tests of the loop on one token, with the reading of the clock that it takes for it.
unfoldable pub accepts : Bcrypt → (AuthToken → Time) → String → AuthToken → Bool
accepts b clock token_str tok =
    not tok.revoked
    && not (is_expired (clock tok) tok.expires_at)
    && b.compare tok.token_hash token_str

unfoldable pub first_accepted :
    Bcrypt → (AuthToken → Time) → String → List AuthToken → Option AuthToken
first_accepted b clock token_str [] = none
first_accepted b clock token_str (tok ∷ r) =
    let rest = first_accepted b clock token_str r in
    if accepts b clock token_str tok then some tok else rest

abbrev or_invalid : Option AuthToken → Db AuthToken
or_invalid none = lift (err invalid_token)
or_invalid (some tok) = pure tok

unfoldable pub validate : Bcrypt → (AuthToken → Time) → String → Db AuthToken
unfolding first_accepted AuthTokens.list
validate b clock token_str = do
  tokens ← AuthTokens.list
  or_invalid (first_accepted b clock token_str tokens)

unfoldable pub revoke : String → Db Unit
revoke id = AuthTokens.revoke id

-- `strings.TrimPrefix`: the text itself if it does not start with the prefix.
unfoldable strip : String → String → Option String
strip String.[] s = some s
strip (String.◌∷◌ p r) String.[] = none
strip (String.◌∷◌ p r) (String.◌∷◌ c s) =
    let rest = strip r s in if eqb (Char.code p) (Char.code c) then rest else none

abbrev or_text : String → Option String → String
or_text s none = s
or_text s (some t) = t

unfoldable pub trim_prefix : String → String → String
unfolding strip
trim_prefix s prefix = or_text s (strip prefix s)

-- What the middlewares do with a request: a refusal with its status, or the next handler, with the
-- token in its context.
pub data Gate : Type 0 where
  unauthorized forbidden : String → Gate
  next : AuthToken → Gate

abbrev to_gate : Result Error AuthToken → Gate
to_gate (ok tok) = next tok
to_gate (err e) = unauthorized "invalid token"

unfoldable pub middleware : Bcrypt → (AuthToken → Time) → String → Store → Gate
unfolding validate trim_prefix
middleware b clock header s =
    if header == ""
    then unauthorized "missing authorization header"
    else if trim_prefix header "Bearer " == header
    then unauthorized "invalid authorization format"
    else to_gate (validate b clock (trim_prefix header "Bearer ") s).0

unfoldable pub require_role : List Role → Option AuthToken → Gate
unfolding role_eq
require_role roles none = unauthorized "unauthorized"
require_role roles (some tok) =
    if exists_in (λ role. role_eq tok.role role) roles then next tok else forbidden "forbidden"
