-- ===== src/Challenge/Next.antt =====
-- How one operation may change one challenge, and the table of challenges.
use oiaf.Base.{
  natural, true, ℕ, ◌≤◌, false, String, ◌≡◌, refl, ap, ◌∙◌, ◌⊎◌, inl, inr, Option, none, some, ◌==◌,
  arith, str_eq→eq, Bool-cases,
}
use oiaf.Base.Table
use oiaf.Base.Table.{Table, get-put, get-put_self}
use oiaf.Types.Enums.{ChallengeStatus, is_pending}
use oiaf.Types.Entities.{Time, Challenge}

-- `d` may follow `c`: what identifies the challenge and what it demands stays, the attempts only
-- grow and stay within their bound, and a challenge that is not pending stays as it is.
pub record Next (c d : Challenge) : Type 0 where
  pub id : d.id ≡ c.id
  pub identity_id : d.identity_id ≡ c.identity_id
  pub request_id : d.request_id ≡ c.request_id
  pub methods : d.methods ≡ c.methods
  pub push_number : d.push_number ≡ c.push_number
  pub nonce : d.nonce ≡ c.nonce
  pub max_attempts : d.max_attempts ≡ c.max_attempts
  pub expires_at : d.expires_at ≡ c.expires_at
  pub grows : c.attempts ≤ d.attempts
  pub bounded : c.attempts ≤ natural c.max_attempts → d.attempts ≤ natural d.max_attempts
  pub final : is_pending c.status ≡ false → d ≡ c

pub Next-refl : (c : Challenge) → Next c c
Next-refl c = record {
  id = refl;
  identity_id = refl;
  request_id = refl;
  methods = refl;
  push_number = refl;
  nonce = refl;
  max_attempts = refl;
  expires_at = refl;
  grows = omega arith;
  bounded = λ h. h;
  final = λ h. refl;
}

pub Next-trans : {c d e : Challenge} → Next c d → Next d e → Next c e
Next-trans {c} {d} {e} p q = record {
  id = q.id ∙ p.id;
  identity_id = q.identity_id ∙ p.identity_id;
  request_id = q.request_id ∙ p.request_id;
  methods = q.methods ∙ p.methods;
  push_number = q.push_number ∙ p.push_number;
  nonce = q.nonce ∙ p.nonce;
  max_attempts = q.max_attempts ∙ p.max_attempts;
  expires_at = q.expires_at ∙ p.expires_at;
  grows = omega (arith, p.grows, q.grows);
  bounded = λ h. q.bounded (p.bounded h);
  final = λ h. q.final (ap (λ x. is_pending x.status) (p.final h) ∙ h) ∙ p.final h;
}

-- What the operations write: a status, the attempts, the ceremony session, the resolution time.
abbrev pub edited : Challenge → ChallengeStatus → ℕ → String → Option Time → Challenge
edited c st a w r = record c { status = st; attempts = a; webauthn_session = w; resolved_at = r }

pub Next-edited :
    (c : Challenge) (st : ChallengeStatus) (a : ℕ) (w : String) (r : Option Time)
    → is_pending c.status ≡ true
    → c.attempts ≤ a
    → (c.attempts ≤ natural c.max_attempts → a ≤ natural c.max_attempts)
    → Next c (edited c st a w r)
Next-edited c st a w r p g b = record {
  id = refl;
  identity_id = refl;
  request_id = refl;
  methods = refl;
  push_number = refl;
  nonce = refl;
  max_attempts = refl;
  expires_at = refl;
  grows = g;
  bounded = b;
  final = λ h. cc;
}

-- Every challenge stands under its own identifier.
pub record IsKeyed (t : Table Challenge) : Type 0 where
  pub at : (k : String) (c : Challenge) → Table.get t k ≡ some c → c.id ≡ k

pub found_at_id :
    (t : Table Challenge) (k : String) (c : Challenge)
    → IsKeyed t
    → Table.get t k ≡ some c
    → Table.get t c.id ≡ some c
found_at_id t k c keyed e = ap (Table.get t) (keyed.at k c e) ∙ e

-- The table as it was, or with one challenge followed by another.
abbrev pub Effect : Table Challenge → Table Challenge → Type 0
Effect t t' =
    (t' ≡ t)
    ⊎ ((c : Challenge) × (d : Challenge) × (Table.get t c.id ≡ some c)
        × Next c d
        × (t' ≡ Table.put t c.id d))

-- What stands under one key before and after.
abbrev pub Follows : Option Challenge → Option Challenge → Type 0
Follows none none = Unit
Follows none (some d) = ⊥
Follows (some c) none = ⊥
Follows (some c) (some d) = Next c d

Follows-refl : (o : Option Challenge) → Follows o o
Follows-refl none = tt
Follows-refl (some c) = Next-refl c

pub Effect-Follows :
    (t t' : Table Challenge) (k : String) → Effect t t' → Follows (Table.get t k) (Table.get t' k)
Effect-Follows t t' k (inl e) = rw e (Follows-refl (Table.get t k))
Effect-Follows t t' k (inr (c, d, found, n, e)) =
    rw (e, get-put)
      (elim (Bool-cases (c.id == k)) [
        | inl p ↦ rw (p, ← str_eq→eq c.id k p, found) n
        | inr p ↦ rw p (Follows-refl (Table.get t k))
      ])

pub Effect-IsKeyed : (t t' : Table Challenge) → IsKeyed t → Effect t t' → IsKeyed t'
Effect-IsKeyed t t' keyed (inl e) = rw e keyed
Effect-IsKeyed t t' keyed (inr (c, d, found, n, e)) = record {
  at = λ k x h. elim (Bool-cases (c.id == k)) [
    | inl p ↦
        let same : some d ≡ some x = rw (e, get-put, p) at h in cc (same, n.id, str_eq→eq c.id k p)
    | inr p ↦ keyed.at k x (rw (e, get-put, p) at h)
  ];
}
