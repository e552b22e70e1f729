-- ===== src/Risk/Signals.antt =====
-- The risk signals of a request that core/internal/risk/engine.go looks for, and what it means that a
-- request shows none that another does not show.
use mathlib.Core.Bool.{false≢true}
use oiaf.Base.{
  ℕ, ◌+◌, ◌≤◌, pos, Bool, true, false, not, ◌&&◌, ◌||◌, String, ◌==◌, List, [], ◌∷◌, In, ◌≡◌, ◌≢◌,
  refl, sym, ◌∙◌, ◌⊎◌, inl, inr, arith, if◌then◌else◌, ltb_ℤ, exists_in, exists_in_of, Bool-cases,
  and-eq_true, str_eq→eq, str_eq_self,
}
use oiaf.Types.Access.{AccessRequest}
use oiaf.Risk.{is_privileged_group, is_geo_mismatch, contains_group}

abbrev pub Implies : Bool → Bool → Type 0
Implies x y = x ≡ true → y ≡ true

-- The place of a text among the ones that cost points: the worse, the bad, and all others.
abbrev pub rank : String → String → String → ℕ
rank bad worse s = if s == worse then 2 else if s == bad then 1 else 0

-- The identity is marked as privileged or in one of two groups.
abbrev pub IsPrivileged : AccessRequest → Type 0
IsPrivileged req =
    (req.identity.privileged ≡ true)
    ⊎ In "Admins" req.identity.groups
    ⊎ In "Domain Admins" req.identity.groups

-- Both places are known, and they differ.
abbrev pub IsFar : AccessRequest → Type 0
IsFar req =
    (req.source.geo ≢ "")
    × (req.identity.usual_geo ≢ "")
    × (req.source.geo ≢ req.identity.usual_geo)

-- A service account is used interactively.
abbrev pub IsService : AccessRequest → Type 0
IsService req = (req.identity.type ≡ "service_account") × (req.context.interactive ≡ true)

-- The account has a service principal that is not managed.
abbrev pub IsSpn : AccessRequest → Type 0
IsSpn req = (req.identity.has_spn ≡ true) × (req.identity.is_gmsa ≡ false)

-- The last logon of a privileged account is more than 30 days ago.
abbrev pub IsOldPrivileged : AccessRequest → Type 0
IsOldPrivileged req =
    (req.identity.privileged ≡ true) × (ltb_ℤ (pos 30) req.identity.last_logon_days ≡ true)

-- Every risk signal of `a` is one of `b`, or a milder one of the same kind: less sensitivity of the
-- resource, a less weak protocol, a better reputation of the source.
pub record Milder (a b : AccessRequest) : Type 0 where
  pub privileged : IsPrivileged a → IsPrivileged b
  pub sensitivity :
      rank "high" "critical" a.resource.sensitivity ≤ rank "high" "critical" b.resource.sensitivity
  pub mfa : Implies b.context.mfa_recent a.context.mfa_recent
  pub far : IsFar a → IsFar b
  pub protocol :
      rank "ntlm" "ldap_simple_bind_cleartext" a.protocol.name
      ≤ rank "ntlm" "ldap_simple_bind_cleartext" b.protocol.name
  pub service : IsService a → IsService b
  pub deviation : Implies a.context.baseline_deviation b.context.baseline_deviation
  pub stale :
      Implies
        (ltb_ℤ (pos 90) a.identity.last_logon_days)
        (ltb_ℤ (pos 90) b.identity.last_logon_days)
  pub password : Implies a.identity.password_never_expires b.identity.password_never_expires
  pub spn : IsSpn a → IsSpn b
  pub old_privileged : IsOldPrivileged a → IsOldPrivileged b
  pub managed : Implies b.device.managed a.device.managed
  pub compliant : Implies b.device.compliant a.device.compliant
  pub reputation :
      rank "unknown" "bad" a.source.reputation ≤ rank "unknown" "bad" b.source.reputation

or-eq_true : (x y : Bool) → (x || y) ≡ true → (x ≡ true) ⊎ (y ≡ true)
or-eq_true true y h = inl refl
or-eq_true false y h = inr h

exists_in→In : (k : String) (xs : List String) → contains_group xs k ≡ true → In k xs
unfolding contains_group exists_in
exists_in→In k [] h = false≢true h
exists_in→In k (x ∷ xs) h = elim (Bool-cases (x == k)) [
  | inl p ↦ inl (str_eq→eq x k p)
  | inr p ↦ inr (exists_in→In k xs (rw p at h))
]

In→contains : (k : String) (xs : List String) → In k xs → contains_group xs k ≡ true
unfolding contains_group
In→contains k xs i = exists_in_of (λ g. g == k) k xs i (str_eq_self k)

not_same : (s t : String) → not (s == t) ≡ true → s ≢ t
not_same s t h e = false≢true (sym (rw (e, str_eq_self) refl) ∙ h)

not_same_of : (s t : String) → s ≢ t → not (s == t) ≡ true
not_same_of s t n = elim (Bool-cases (s == t)) [
  | inl p ↦ absurd (n (str_eq→eq s t p))
  | inr p ↦ rw p refl
]

pub to_privileged : (req : AccessRequest) → is_privileged_group req ≡ true → IsPrivileged req
unfolding is_privileged_group
to_privileged req h = elim (or-eq_true _ _ h) [
  | inr d ↦ inr (inr (exists_in→In "Domain Admins" req.identity.groups d))
  | inl u ↦ elim (or-eq_true _ _ u) [
    | inl p ↦ inl p
    | inr a ↦ inr (inl (exists_in→In "Admins" req.identity.groups a))
  ]
]

pub of_privileged : (req : AccessRequest) → IsPrivileged req → is_privileged_group req ≡ true
unfolding is_privileged_group
of_privileged req (inl p) = rw p refl
of_privileged req (inr (inl i)) = rw (In→contains "Admins" req.identity.groups i) (ground arith)
of_privileged req (inr (inr i)) =
    rw (In→contains "Domain Admins" req.identity.groups i) (ground arith)

pub to_far : (req : AccessRequest) → is_geo_mismatch req ≡ true → IsFar req
unfolding is_geo_mismatch
to_far req h =
    let (p, c) = and-eq_true _ _ h in
    let (a, b) = and-eq_true _ _ p in (not_same _ _ a, not_same _ _ b, not_same _ _ c)

pub of_far : (req : AccessRequest) → IsFar req → is_geo_mismatch req ≡ true
unfolding is_geo_mismatch
of_far req (a, b, c) = rw (not_same_of _ _ a, not_same_of _ _ b, not_same_of _ _ c) refl

one_rank : (s k l : String) → (k == l) ≡ false → (s == k) ≡ true → (s == l) ≡ false
one_rank s k l n p = rw (str_eq→eq s k p) n

ranked_points :
    (u v w x : Bool) (m n : ℕ)
    → m ≤ n
    → (u ≡ true → v ≡ false)
    → (w ≡ true → x ≡ false)
    → (if v then 2 else if u then 1 else 0) ≤ (if x then 2 else if w then 1 else 0)
    → (if u then m else 0) + (if v then n else 0) ≤ (if w then m else 0) + (if x then n else 0)
ranked_points u v w x m n h a b r = ground arith

-- A text of no higher rank costs no more points.
pub rank-points :
    (bad worse s t : String) (m n : ℕ)
    → m ≤ n
    → (bad == worse) ≡ false
    → rank bad worse s ≤ rank bad worse t
    → (if s == bad then m else 0) + (if s == worse then n else 0)
      ≤ (if t == bad then m else 0) + (if t == worse then n else 0)
rank-points bad worse s t m n h k r =
    ranked_points (s == bad) (s == worse) (t == bad) (t == worse) m n h (one_rank s bad worse k)
      (one_rank t bad worse k) r

module _ (a b : AccessRequest) (m : Milder a b) where
  pub privileged_mono : Implies (is_privileged_group a) (is_privileged_group b)
  privileged_mono p = of_privileged b (m.privileged (to_privileged a p))

  pub far_mono : Implies (is_geo_mismatch a) (is_geo_mismatch b)
  far_mono p = of_far b (m.far (to_far a p))

  pub service_mono :
      Implies
        (a.identity.type == "service_account" && a.context.interactive)
        (b.identity.type == "service_account" && b.context.interactive)
  service_mono p =
      let (x, y) = and-eq_true _ _ p in
      let (s, t) = m.service (str_eq→eq a.identity.type "service_account" x, y) in rw (s, t) refl

  pub spn_mono :
      Implies
        (a.identity.has_spn && not a.identity.is_gmsa)
        (b.identity.has_spn && not b.identity.is_gmsa)
  spn_mono p =
      let (x, y) = and-eq_true _ _ p in let (s, t) = m.spn (x, ground (arith, y)) in rw (s, t) refl

  pub old_privileged_mono :
      Implies
        (a.identity.privileged && ltb_ℤ (pos 30) a.identity.last_logon_days)
        (b.identity.privileged && ltb_ℤ (pos 30) b.identity.last_logon_days)
  old_privileged_mono p =
      let (x, y) = and-eq_true _ _ p in let (s, t) = m.old_privileged (x, y) in rw (s, t) refl
