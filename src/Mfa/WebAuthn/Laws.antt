-- ===== src/Mfa/WebAuthn/Laws.antt =====
-- The ceremonies write the table of factors and nothing else.
use oiaf.Base.{String, ◌≡◌, refl, List, [], ◌∷◌, arith, filter_by, ◌==◌}
use oiaf.Base.Action.{Result, ok, err}
use oiaf.Types.Entities.{Factor}
use oiaf.Base.Table.{Table}
use oiaf.Storage.State.{Store}
use oiaf.Types.Errors.{Error}
use oiaf.Base.Table
use oiaf.Mfa.WebAuthn.{
  WebAuthnLib, Credential, persist_in, conclude_login, finish_verification, begin_verification,
}

challenges-persist_in :
    (lib : WebAuthnLib) (c : Credential) (fs : List Factor) (s : Store)
    → (persist_in lib c fs s).1.challenges ≡ s.challenges
unfolding persist_in
challenges-persist_in lib c [] s = refl
challenges-persist_in lib c (f ∷ r) s = ground (arith, challenges-persist_in lib c r s)

challenges-conclude_login :
    (lib : WebAuthnLib) (identity_id : String) (r : Result Error Credential) (s : Store)
    → (conclude_login lib identity_id r s).1.challenges ≡ s.challenges
unfolding conclude_login
challenges-conclude_login lib identity_id (err e) s = refl
challenges-conclude_login lib identity_id (ok c) s = ground (
  arith,
  challenges-persist_in lib c
      (filter_by (λ f. f.identity_id == identity_id) (Table.values s.factors)) s,
)

pub challenges-finish_verification :
    (lib : WebAuthnLib) (identity_id session response : String) (s : Store)
    → (finish_verification lib identity_id session response s).1.challenges ≡ s.challenges
unfolding finish_verification
challenges-finish_verification lib identity_id session response s =
    challenges-conclude_login lib identity_id _ s

pub begin_verification-store :
    (lib : WebAuthnLib) (identity_id : String) (s : Store)
    → (begin_verification lib identity_id s).1 ≡ s
unfolding begin_verification
begin_verification-store lib identity_id s = ground arith
