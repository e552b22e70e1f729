-- ===== src/Okta/Poll/Emission.antt =====
-- The loop over the signals of an event in adapters/okta/poller.go.
use oiaf.Base.{
  In-append_left, In-append_last, ◌≡◌, refl, sym, ap, ◌∙◌, inl, inr, true, false, List, [], ◌∷◌,
  ◌++◌, In, arith, Bool-cases,
}
use oiaf.Okta.Signals.{Signal}
use oiaf.Okta.Poll.{Sink, emit_all}

-- What is delivered stays delivered, and after a success every signal of the event is.
pub emit_all-keeps :
    (sink : Sink) (sig : Signal) (sent signals : List Signal)
    → In sig sent
    → In sig (emit_all sink sent signals).0
unfolding emit_all
emit_all-keeps sink sig sent [] i = i
emit_all-keeps sink sig sent (x ∷ r) i = elim (Bool-cases (sink sent x)) [
  | inl p ↦ rw p (emit_all-keeps sink sig (sent ++ x ∷ []) r (In-append_left sig sent (x ∷ []) i))
  | inr p ↦ rw p i
]

pub emit_all-step :
    (sink : Sink) (x : Signal) (sent r : List Signal)
    → sink sent x ≡ true
    → emit_all sink sent (x ∷ r) ≡ emit_all sink (sent ++ x ∷ []) r
unfolding emit_all
emit_all-step sink x sent r h = rw h refl

pub emit_all-accepts :
    (sink : Sink) (x : Signal) (sent r : List Signal)
    → (emit_all sink sent (x ∷ r)).1 ≡ true
    → sink sent x ≡ true
unfolding emit_all
emit_all-accepts sink x sent r h = ground arith

pub emit_all-delivers :
    (sink : Sink) (sig : Signal) (sent signals : List Signal)
    → (emit_all sink sent signals).1 ≡ true
    → In sig signals
    → In sig (emit_all sink sent signals).0
emit_all-delivers sink sig sent [] h i = absurd i
emit_all-delivers sink sig sent (x ∷ r) h (inl e) =
    rw (emit_all-step sink x sent r (emit_all-accepts sink x sent r h))
      (emit_all-keeps sink sig (sent ++ x ∷ []) r (rw e (In-append_last sig sent)))
emit_all-delivers sink sig sent (x ∷ r) h (inr i) =
    let step = emit_all-step sink x sent r (emit_all-accepts sink x sent r h) in
    rw step (emit_all-delivers sink sig (sent ++ x ∷ []) r (sym (ap (λ z. z.1) step) ∙ h) i)

pub emit_all-refuses :
    (sink : Sink) (sent signals : List Signal)
    → (emit_all sink sent signals).1 ≡ false
    → (sig : Signal) × In sig signals × (sink (emit_all sink sent signals).0 sig ≡ false)
unfolding emit_all
emit_all-refuses sink sent [] h = cc
emit_all-refuses sink sent (x ∷ r) h = elim (Bool-cases (sink sent x)) [
  | inl q ↦
      let step = emit_all-step sink x sent r q in
      let (sig, i, n) = emit_all-refuses sink (sent ++ x ∷ []) r (sym (ap (λ z. z.1) step) ∙ h) in
      (sig, inr i, ap (λ z. sink z.0 sig) step ∙ n)
  | inr q ↦ (x, inl refl, rw q q)
]
