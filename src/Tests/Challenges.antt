-- ===== src/Tests/Challenges.antt =====
-- Challenges at concrete inputs.
use oiaf.Base.{
  ◌≤◌, pos, true, false, ◌==◌, ◌≡◌, refl, inl, inr, Option, some, none, arith, In, filter_by, ltb_ℤ,
  str_eq→eq, Bool-cases,
}
use oiaf.Base.Table
use oiaf.Base.Table.{Table}
use oiaf.Base.Action.{ok, err, from_parts}
use oiaf.Types.Enums.{method_eq}
use oiaf.Types.Entities.{Challenge, Factor}
use oiaf.Types.Errors.{invalid_code}
use oiaf.Storage.State.{Store, new_memory_store}
use oiaf.Mfa.Totp.{accepts, accepts_any}
use oiaf.Mfa.Totp.Laws.{Passes}
use oiaf.Mfa.Push.{payload}
use oiaf.Challenge.{
  Approval, tried, approved, after_failure, verify_totp, verify_push, create, push_number,
  new_challenge, int_eq,
}
use oiaf.Challenge.Next.{Next, IsKeyed}
use oiaf.Challenge.Admission.{Admitted}
use oiaf.Challenge.Effects.{totp_accepts}
use oiaf.Challenge.Soundness.{Signed, verify_totp-ok, verify_push-ok}
use oiaf.Challenge.Outcomes.{verify_totp-outcome, verify_push_by_any_device}
use oiaf.Challenge.Creation.{create-Admitted}
use oiaf.Challenge.History.{Operation, History, start, then_, History-Next, History-attempts}
use oiaf.Tests.Data.{service, clock, stamp, fresh, pending, device, store, approval}

admitted : Admitted 1000 pending
admitted = record { pending = refl; fresh = refl; attempts_left = omega arith }

held : Table.get store.challenges "c1" ≡ some pending
unfolding Table.get
held = refl

accepted : totp_accepts service clock "123456" pending store ≡ true
unfolding accepts_any accepts filter_by Table.values method_eq
accepted = refl

numbered : int_eq approval.number pending.push_number ≡ true
unfolding int_eq ltb_ℤ
numbered = refl

signed : Signed service clock "c1" approval store
unfolding payload Table.get
signed = (device, refl, omega arith, omega arith, refl)

verify_totp-outcome_example :
    (totp_accepts service clock "123456" pending store ≡ true
      → ((verify_totp service clock stamp "c1" "123456" store).0
          ≡ ok (approved 1002 (tried pending)))
        × (Table.get (verify_totp service clock stamp "c1" "123456" store).1.challenges "c1"
            ≡ some (approved 1002 (tried pending))))
    × (totp_accepts service clock "123456" pending store ≡ false
        → ((verify_totp service clock stamp "c1" "123456" store).0 ≡ err invalid_code)
          × (Table.get (verify_totp service clock stamp "c1" "123456" store).1.challenges "c1"
              ≡ some (after_failure (tried pending))))
verify_totp-outcome_example =
    verify_totp-outcome service clock stamp "c1" store pending "123456" held refl admitted

verify_totp-ok_example :
    (c : Challenge) × (Table.get store.challenges "c1" ≡ some c)
    × Admitted 1000 c
    × (approved 1002 (tried pending) ≡ approved 1002 (tried c))
    × ((f : Factor) × In f (Table.values store.factors)
        × (f.identity_id ≡ c.identity_id)
        × Passes service.totp 1001 "123456" f)
verify_totp-ok_example =
    verify_totp-ok service clock stamp "c1" store "123456" (approved 1002 (tried pending))
      (verify_totp-outcome_example.0 accepted).0

verify_push_by_any_device_example :
    ((verify_push service clock stamp "c1" approval store).0 ≡ ok (approved 1002 (tried pending)))
    × (Table.get (verify_push service clock stamp "c1" approval store).1.challenges "c1"
        ≡ some (approved 1002 (tried pending)))
verify_push_by_any_device_example =
    verify_push_by_any_device service clock stamp "c1" store pending approval held refl admitted
      numbered signed

verify_push-ok_example :
    (c : Challenge) × (Table.get store.challenges "c1" ≡ some c)
    × Admitted 1000 c
    × (approved 1002 (tried pending) ≡ approved 1002 (tried c))
    × (int_eq approval.number c.push_number ≡ true)
    × Signed service clock "c1" approval store
verify_push-ok_example =
    verify_push-ok service clock stamp "c1" store approval (approved 1002 (tried pending))
      verify_push_by_any_device_example.0

abbrev guess : Approval
guess = record approval { number = pos 41 }

created :
    (create service fresh "u1" "r2" pending.methods new_memory_store).0
    ≡ ok (new_challenge service fresh "u1" "r2" pending.methods (pos 42))
unfolding create push_number method_eq
created = refl

abbrev later : Store
later = (create service fresh "u1" "r2" pending.methods new_memory_store).1

create-Admitted_example :
    (Table.get later.challenges "c2"
      ≡ some (new_challenge service fresh "u1" "r2" pending.methods (pos 42)))
    × ((new_challenge service fresh "u1" "r2" pending.methods (pos 42)).identity_id ≡ "u1")
    × ((new_challenge service fresh "u1" "r2" pending.methods (pos 42)).methods ≡ pending.methods)
    × Admitted 1000 (new_challenge service fresh "u1" "r2" pending.methods (pos 42))
create-Admitted_example =
    create-Admitted service fresh "u1" "r2" pending.methods new_memory_store later
      (new_challenge service fresh "u1" "r2" pending.methods (pos 42)) 1000
      (from_parts _ _ _ created refl) refl (omega arith)

keyed : IsKeyed store.challenges
unfolding Table.get
keyed = record {
  at = λ k c h. elim (Bool-cases ("c1" == k)) [
    | inl p ↦ let same : some pending ≡ some c = rw p at h in cc (same, str_eq→eq "c1" k p)
    | inr p ↦
        let none_there : (◌≡◌ {A = Option Challenge} none (some c)) = rw p at h in cc none_there
  ];
}

verified : History service store (verify_totp service clock stamp "c1" "123456" store).1
verified = then_ start (Operation.verify_totp clock stamp "c1" "123456" store)

History-Next_example :
    (d : Challenge) × (Table.get
        (verify_totp service clock stamp "c1" "123456" store).1.challenges
        "c1"
      ≡ some d)
    × Next pending d
History-Next_example = History-Next service "c1" pending keyed verified held

begun : History service new_memory_store later
unfolding Table.get
begun = then_ start (Operation.create fresh "u1" "r2" pending.methods new_memory_store refl)

History-attempts_example :
    (new_challenge service fresh "u1" "r2" pending.methods (pos 42)).attempts ≤ 3
History-attempts_example =
    History-attempts service "c2" (new_challenge service fresh "u1" "r2" pending.methods (pos 42))
      begun create-Admitted_example.0
