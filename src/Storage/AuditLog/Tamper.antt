-- ===== src/Storage/AuditLog/Tamper.antt =====
-- Tamper evidence: the last hash determines the JSON of an accepted log.
use oiaf.Base.{
  ℕ, suc, true, ◌≡◌, ◌≢◌, refl, sym, ◌∙◌, ◌⊎◌, inl, inr, some, List, [], ◌∷◌, ◌++◌, In, bytes_eq,
  bytes_eq→eq, ne_of_bytes_eq, Bool-cases, Option-cases,
}
use oiaf.Base.Action.{ok}
use oiaf.Storage.State.{Store}
use mathlib.Core.Bool.{false≢true}
use mathlib.Core.Path.{subst}
use oiaf.Types.Entities.{AuditEvent}
use oiaf.Storage.AuditLog.{
  Bytes, Hasher, HashedEvent, no_hash, or_empty, compute_audit_hash, verify_from, verify,
}
use oiaf.Storage.AuditLog.Chain.{last_hash}
use oiaf.Storage.AuditLog.Braces.{
  brace, NoBrace, IsText, AreTexts, rev_onto, rev_onto_injective, In-rev_onto, split_texts,
}

-- The JSON of an event with the hash before it, which is empty where it cannot be made.
abbrev pub text : Hasher → Bytes → AuditEvent → Bytes
text h prev e = or_empty (h.marshal (no_hash prev e))

-- The JSON of each event of a log, as `Verify` makes it.
abbrev pub texts : Hasher → Bytes → List AuditEvent → List Bytes
texts h prev [] = []
texts h prev (e ∷ r) = text h prev e ∷ texts h e.hash r

-- What `Verify` hashes for the events of a log.
abbrev pub inputs : Hasher → Bytes → List AuditEvent → List Bytes
inputs h prev [] = []
inputs h prev (e ∷ r) = (prev ++ text h prev e) ∷ inputs h e.hash r

-- A text hashed for the one log, and one hashed for the other, on which SHA-256 collides.
pub record Collision (h : Hasher) (xs ys : List Bytes) : Type 0 where
  pub left : Bytes
  pub right : Bytes
  pub left_hashed : In left xs
  pub right_hashed : In right ys
  pub different : left ≢ right
  pub same : h.sha256_hex left ≡ h.sha256_hex right

-- What the chain relies on of the encodings: the JSON of a struct begins with a brace, and a digest
-- in hexadecimal is a text without braces that is not empty.
pub record IsEncoding (h : Hasher) : Type 0 where
  pub marshal_brace :
      (x : HashedEvent) (b : Bytes) → h.marshal x ≡ some b → (r : Bytes) × (b ≡ brace ∷ r)
  pub digest_nonempty : (b : Bytes) → h.sha256_hex b ≢ []
  pub digest_NoBrace : (b : Bytes) → NoBrace (h.sha256_hex b)

-- The hash of the newest event of a chain of texts, newest first.
head_hash : Hasher → List Bytes → Bytes
head_hash h [] = []
head_hash h (t ∷ older) = let prev = head_hash h older in h.sha256_hex (prev ++ t)

-- What is hashed for such a chain.
hashed : Hasher → List Bytes → List Bytes
hashed h [] = []
hashed h (t ∷ older) = (head_hash h older ++ t) ∷ hashed h older

-- The first event of an accepted log has the hash of the chain that it extends, and the rest is
-- accepted after it.
accepted_step :
    (h : Hasher) (i : ℕ) (prev : Bytes) (e : AuditEvent) (r : List AuditEvent)
    → (verify_from h i prev (e ∷ r)).0 ≡ true
    → (e.hash ≡ compute_audit_hash h prev e) × ((verify_from h (suc i) e.hash r).0 ≡ true)
unfolding verify_from
accepted_step h i prev e r v = elim (Bool-cases (bytes_eq e.hash (compute_audit_hash h prev e))) [
  | inl p ↦ (bytes_eq→eq _ _ p, rw p at v)
  | inr p ↦ absurd (false≢true (rw p at v))
]

-- The chain that an accepted log is, when it follows an older chain.
chain_of : Hasher → List Bytes → List AuditEvent → List Bytes
chain_of h older xs = rev_onto (texts h (head_hash h older) xs) older

module _ (h : Hasher) (i : ℕ) (e : AuditEvent) (r : List AuditEvent) (older : List Bytes) where
  abbrev newer : List Bytes
  newer = text h (head_hash h older) e ∷ older

  step_hash : (verify_from h i (head_hash h older) (e ∷ r)).0 ≡ true → e.hash ≡ head_hash h newer
  unfolding head_hash compute_audit_hash
  step_hash v = (accepted_step h i (head_hash h older) e r v).0

  step_rest :
      (verify_from h i (head_hash h older) (e ∷ r)).0 ≡ true
      → (verify_from h (suc i) (head_hash h newer) r).0 ≡ true
  step_rest v =
      subst (λ b. (verify_from h (suc i) b r).0 ≡ true) (step_hash v)
        (accepted_step h i (head_hash h older) e r v).1

-- An accepted log has the last hash that its chain has.
last_hash-head_hash :
    (h : Hasher) (i : ℕ) (xs : List AuditEvent) (older : List Bytes)
    → (verify_from h i (head_hash h older) xs).0 ≡ true
    → last_hash (head_hash h older) xs ≡ head_hash h (chain_of h older xs)
unfolding rev_onto chain_of
last_hash-head_hash h i [] older v = refl
last_hash-head_hash h i (e ∷ r) older v =
    rw (step_hash h i e r older v)
      (last_hash-head_hash h (suc i) r (newer h i e r older) (step_rest h i e r older v))

-- What is hashed for the chain of an accepted log is what `Verify` hashes, or stems from before.
hashed-inputs :
    (h : Hasher) (i : ℕ) (xs : List AuditEvent) (older : List Bytes) (b : Bytes)
    → (verify_from h i (head_hash h older) xs).0 ≡ true
    → In b (hashed h (chain_of h older xs))
    → In b (inputs h (head_hash h older) xs) ⊎ In b (hashed h older)
unfolding rev_onto chain_of hashed
hashed-inputs h i [] older b v m = inr m
hashed-inputs h i (e ∷ r) older b v m =
    let more : In b (hashed h (chain_of h (newer h i e r older) r)) =
      subst (λ k. In b (hashed h (rev_onto (texts h k r) (newer h i e r older))))
        (step_hash h i e r older v) m in
    elim (hashed-inputs h (suc i) r (newer h i e r older) b (step_rest h i e r older v) more) [
      | inl j ↦ inl (inr (subst (λ k. In b (inputs h k r)) (sym (step_hash h i e r older v)) j))
      | inr k ↦ elim k [ inl same ↦ inl (inl same) | inr o ↦ inr o ]
    ]

module _ (h : Hasher) (enc : IsEncoding h) where
  head_hash-NoBrace : (cs : List Bytes) → NoBrace (head_hash h cs)
  unfolding head_hash
  head_hash-NoBrace [] = tt
  head_hash-NoBrace (c ∷ cs) = enc.digest_NoBrace (head_hash h cs ++ c)

  text-IsText : (prev : Bytes) (e : AuditEvent) → IsText (text h prev e)
  text-IsText prev e = elim (Option-cases (h.marshal (no_hash prev e))) [
    | inl n ↦ inl (rw n refl)
    | inr (b, m) ↦ let (r, p) = enc.marshal_brace (no_hash prev e) b m in inr (r, rw m p)
  ]

  texts-AreTexts : (prev : Bytes) (xs : List AuditEvent) → AreTexts (texts h prev xs)
  texts-AreTexts prev [] t i = absurd i
  texts-AreTexts prev (e ∷ r) t (inl same) = subst IsText same (text-IsText prev e)
  texts-AreTexts prev (e ∷ r) t (inr i) = texts-AreTexts e.hash r t i

  -- Two chains with one head hash are the same, or what is hashed for them shows a collision.
  head_hash_injective :
      (cs ds : List Bytes)
      → AreTexts cs
      → AreTexts ds
      → head_hash h cs ≡ head_hash h ds
      → (cs ≡ ds) ⊎ Collision h (hashed h cs) (hashed h ds)
  unfolding head_hash hashed
  head_hash_injective [] [] tc td e = inl refl
  head_hash_injective [] (d ∷ ds) tc td e = absurd (enc.digest_nonempty _ (sym e))
  head_hash_injective (c ∷ cs) [] tc td e = absurd (enc.digest_nonempty _ e)
  head_hash_injective (c ∷ cs) (d ∷ ds) tc td e =
      let x = head_hash h cs ++ c in
      let y = head_hash h ds ++ d in
      elim (Bool-cases (bytes_eq x y)) [
        | inr differ ↦ inr (record {
          left = x;
          right = y;
          left_hashed = inl refl;
          right_hashed = inl refl;
          different = ne_of_bytes_eq x y differ;
          same = e;
        })
        | inl agree ↦
            let (older, newest) =
              split_texts (head_hash h cs) (head_hash h ds) c d (head_hash-NoBrace cs)
                (head_hash-NoBrace ds) (tc c (inl refl)) (td d (inl refl))
                (bytes_eq→eq x y agree) in
            elim (head_hash_injective cs ds (λ t i. tc t (inr i)) (λ t i. td t (inr i)) older) [
              | inl l ↦ inl (cc (l, newest))
              | inr k ↦ inr (record {
                left = k.left;
                right = k.right;
                left_hashed = inr k.left_hashed;
                right_hashed = inr k.right_hashed;
                different = k.different;
                same = k.same;
              })
            ]
      ]

-- If `Verify` accepts two logs that end in one hash, then their events have the same JSON, in the
-- same order, or the texts that `Verify` hashes for the two hold two different ones with one digest.
pub tamper_evident :
    (h : Hasher) (enc : IsEncoding h) (s t : Store) (n m : ℕ)
    → (verify h s).0 ≡ ok (true, n)
    → (verify h t).0 ≡ ok (true, m)
    → last_hash [] s.audit_events ≡ last_hash [] t.audit_events
    → (texts h [] s.audit_events ≡ texts h [] t.audit_events)
      ⊎ Collision h (inputs h [] s.audit_events) (inputs h [] t.audit_events)
unfolding verify
tamper_evident h enc s t n m vs vt e =
    elim (head_hash_injective h enc (chain s) (chain t) (well s) (well t)
      (sym (head s (accepted s n vs)) ∙ e ∙ head t (accepted t m vt))) [
        | inl l ↦ inl (rev_onto_injective _ _ (unfold chain_of head_hash in l))
        | inr k ↦ inr (record {
          left = k.left;
          right = k.right;
          left_hashed = own s (accepted s n vs) k.left k.left_hashed;
          right_hashed = own t (accepted t m vt) k.right k.right_hashed;
          different = k.different;
          same = k.same;
        })
      ]
  where
    chain : Store → List Bytes
    chain u = chain_of h [] u.audit_events

    accepted :
        (u : Store) (k : ℕ)
        → (verify h u).0 ≡ ok (true, k)
        → (verify_from h 0 [] u.audit_events).0 ≡ true
    accepted u k v = cc

    head :
        (u : Store)
        → (verify_from h 0 [] u.audit_events).0 ≡ true
        → last_hash [] u.audit_events ≡ head_hash h (chain u)
    head u v = unfold head_hash in last_hash-head_hash h 0 u.audit_events [] v

    well : (u : Store) → AreTexts (chain u)
    well u b i =
        unfold chain_of head_hash in
        elim (In-rev_onto b (texts h [] u.audit_events) [] i) [
          | inl j ↦ texts-AreTexts h enc [] u.audit_events b j
          | inr j ↦ absurd j
        ]

    own :
        (u : Store)
        → (verify_from h 0 [] u.audit_events).0 ≡ true
        → (b : Bytes) → In b (hashed h (chain u))
        → In b (inputs h [] u.audit_events)
    own u v b i =
        unfold head_hash hashed in
        elim (hashed-inputs h 0 u.audit_events [] b v i) [ inl j ↦ j | inr j ↦ absurd j ]
