-- ===== src/Mfa/Totp/Laws.antt =====
-- Which factors a code is checked against.
use oiaf.Base.{
  ◌-◌, true, String, ◌==◌, ◌≡◌, refl, ◌⊎◌, inl, inr, some, List, [], ◌∷◌, arith, In, In-filter_by,
  filter_by, Bool-cases, Option-cases, str_eq→eq,
}
use oiaf.Base.Table
use oiaf.Base.Action.{ok}
use oiaf.Types.Enums.{MfaMethod, FactorStatus}
use oiaf.Types.Entities.{Time, Factor}
use oiaf.Storage.State.{Store}
use oiaf.Mfa.Totp.{TotpLib, accepts, accepts_any, activate, half_minute}

-- A factor that lets a code pass.
pub record Passes (lib : TotpLib) (now : Time) (code : String) (f : Factor) : Type 0 where
  pub method : f.method ≡ MfaMethod.totp
  pub status : f.status ≡ FactorStatus.active
  pub valid :
      (lib.validate code f.secret now ≡ true)
      ⊎ (lib.validate_custom code f.secret (now - half_minute) ≡ some true)

accepts-Passes :
    (lib : TotpLib) (now : Time) (code : String) (f : Factor)
    → accepts lib now code f ≡ true
    → Passes lib now code f
unfolding accepts
accepts-Passes lib now code f h = record {
  method = ground arith;
  status = ground arith;
  valid = ground arith;
}

accepts_any-In :
    (lib : TotpLib) (now : Time) (code : String) (fs : List Factor)
    → accepts_any lib now code fs ≡ true
    → (f : Factor) × In f fs × (accepts lib now code f ≡ true)
unfolding accepts_any
accepts_any-In lib now code [] h = cc
accepts_any-In lib now code (f ∷ r) h = elim (Bool-cases (accepts lib now code f)) [
  | inl p ↦ (f, inl refl, p)
  | inr p ↦ let (g, i, q) = accepts_any-In lib now code r (rw p at h) in (g, inr i, q)
]

-- A code is accepted for an identity only by an active TOTP factor of that identity.
pub accepted_by_factor :
    (lib : TotpLib) (now : Time) (code identity_id : String) (s : Store)
    → accepts_any lib now code
        (filter_by (λ f. f.identity_id == identity_id) (Table.values s.factors))
      ≡ true
    → (f : Factor) × In f (Table.values s.factors)
      × (f.identity_id ≡ identity_id)
      × Passes lib now code f
accepted_by_factor lib now code identity_id s h =
    let (f, i, a) = accepts_any-In lib now code _ h in
    let (stored, owner) =
      In-filter_by (λ g. g.identity_id == identity_id) f (Table.values s.factors) i in
    (f, stored, str_eq→eq f.identity_id identity_id owner, accepts-Passes lib now code f a)

-- `Activate` succeeds only on a pending factor of the identity whose code is valid, and then the
-- factor stored under that identifier is the same with the status active.
pub activate_ok :
    (lib : TotpLib) (now : Time) (identity_id factor_id code : String) (s t : Store)
    → activate lib now identity_id factor_id code s ≡ (ok tt, t)
    → (f : Factor) × (Table.get s.factors factor_id ≡ some f)
      × (f.identity_id ≡ identity_id)
      × (f.status ≡ FactorStatus.pending_activation)
      × (lib.validate code f.secret now ≡ true)
      × (t.factors ≡ Table.put s.factors f.id (record f { status = FactorStatus.active }))
unfolding activate
activate_ok lib now identity_id factor_id code s t h =
    elim (Option-cases (Table.get s.factors factor_id)) [
      | inl e ↦ absurd (ground arith)
      | inr (f, e) ↦
          let owner = str_eq→eq f.identity_id identity_id in
          (f, e, ground arith, ground arith, ground arith, ground arith)
    ]
