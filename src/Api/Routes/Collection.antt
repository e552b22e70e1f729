-- ===== src/Api/Routes/Collection.antt =====
-- The identities that core/internal/api/api.go serves from the store of
-- core/internal/storage/memory.go are an abstract collection: a partial function from identifiers.
use oiaf.Base.{
  ◌≡◌, refl, sym, ap, ◌∙◌, String, ◌==◌, Option, none, some, List, [], ◌∷◌, Bool-cases,
  Option-cases, inl, inr, str_eq→eq, if◌then◌else◌,
}
use oiaf.Base.Table
use oiaf.Base.Table.{Table, get-put, get-remove}
use oiaf.Base.Action.{Result, ok, err}
use oiaf.Types.Entities.{Time, Identity}
use oiaf.Storage.State.{Store}
use oiaf.Storage.Identities as Stored
use oiaf.Api.{HttpError, missing, bad_request, body_or_400}
use oiaf.Api.Routes.Identities.{
  handle_create_identity, handle_get_identity, handle_update_identity, handle_delete_identity,
  created, updated,
}

-- A call with the body that was decoded, if it was, and the identifier and time that it takes.
pub data Call : Type 0 where
  creates : String → Time → Option Identity → Call
  reads : String → Call
  updates : Time → String → Option Identity → Call
  deletes : String → Call

-- The identity of the response; `none` is a response without a body.
abbrev pub Response : Type 0
Response = Result HttpError (Option Identity)

abbrev with_body : Result HttpError Identity → Response
with_body (ok v) = ok (some v)
with_body (err e) = err e

abbrev without_body : Result HttpError (Unit {0}) → Response
without_body (ok u) = ok none
without_body (err e) = err e

-- What the program answers, and the store afterwards.
pub serve : Call → Store → Response × Store
serve (creates id now body) s =
    let (r, s') = handle_create_identity id now body s in (with_body r, s')
serve (reads id) s = let (r, s') = handle_get_identity id s in (with_body r, s')
serve (updates now id body) s =
    let (r, s') = handle_update_identity now id body s in (with_body r, s')
serve (deletes id) s = let (r, s') = handle_delete_identity id s in (without_body r, s')

pub serve_all : List Call → Store → List Response × Store
serve_all [] s = ([], s)
serve_all (c ∷ r) s = let (a, s') = serve c s in let (rest, s'') = serve_all r s' in (a ∷ rest, s'')

-- The specification: a collection is the identity of each identifier, if there is one.
abbrev pub Collection : Type 0
Collection = String → Option Identity

abbrev set : Collection → String → Option Identity → Collection
set m k v = λ j. if k == j then v else m j

abbrev invalid : Response
invalid = err (bad_request "invalid request body")

abbrev update_spec :
    Time → String → Option Identity → Option Identity → Collection → Response × Collection
update_spec now id none body m = (err (missing "identity not found"), m)
update_spec now id (some existing) none m = (invalid, m)
update_spec now id (some existing) (some body) m =
    (ok (some (updated now existing body)), set m id (some (updated now existing body)))

abbrev read_spec : Option Identity → Response
read_spec none = err (missing "identity not found")
read_spec (some v) = ok (some v)

pub spec : Call → Collection → Response × Collection
spec (creates id now none) m = (invalid, m)
spec (creates id now (some body)) m =
    (ok (some (created id now body)), set m id (some (created id now body)))
spec (reads id) m = (read_spec (m id), m)
spec (updates now id body) m = update_spec now id (m id) body m
spec (deletes id) m = (ok none, set m id none)

pub spec_all : List Call → Collection → List Response × Collection
spec_all [] m = ([], m)
spec_all (c ∷ r) m = let (a, m') = spec c m in let (rest, m'') = spec_all r m' in (a ∷ rest, m'')

-- The store holds the collection, each identity under its own identifier.
pub record Represents (s : Store) (m : Collection) : Type 0 where
  pub same : (k : String) → Table.get s.identities k ≡ m k
  pub keyed : (k : String) (v : Identity) → m k ≡ some v → v.id ≡ k

set-Represents :
    (s : Store) (m : Collection) (k : String) (v : Identity)
    → v.id ≡ k
    → Represents s m
    → Represents (record s { identities = Table.put s.identities v.id v }) (set m k (some v))
set-Represents s m k v e h = record {
  same = λ j. get-put s.identities v.id j v ∙ rw (e, h.same j) refl;
  keyed = λ j w q. elim (Bool-cases (k == j)) [
    | inl p ↦ cc (str_eq→eq k j p, q, p, e)
    | inr p ↦ h.keyed j w (cc (q, p))
  ];
}

unset-Represents :
    (s : Store) (m : Collection) (k : String)
    → Represents s m
    → Represents (record s { identities = Table.remove s.identities k }) (set m k none)
unset-Represents s m k h = record {
  same = λ j. get-remove s.identities k j ∙ rw (h.same j) refl;
  keyed =
      λ j w q. elim (Bool-cases (k == j)) [ inl p ↦ cc (q, p) | inr p ↦ h.keyed j w (cc (q, p)) ];
}

-- Equal responses, and states that correspond.
pub record Agrees (x : Response × Store) (y : Response × Collection) : Type 0 where
  pub response : x.0 ≡ y.0
  pub state : Represents x.1 y.1

module _ (now : Time) (id : String) (s : Store) where
  update_missing :
      (body : Option Identity)
      → Table.get s.identities id ≡ none
      → serve (updates now id body) s ≡ (err (missing "identity not found"), s)
  unfolding serve handle_update_identity Stored.get
  update_missing body e = rw e refl

  update_undecoded :
      (v : Identity)
      → Table.get s.identities id ≡ some v
      → serve (updates now id none) s ≡ (invalid, s)
  unfolding serve handle_update_identity Stored.get
  update_undecoded v e = rw e refl

stored_again :
    (now : Time) (s : Store) (v body : Identity)
    → Table.get s.identities v.id ≡ some v
    → serve (updates now v.id (some body)) s ≡ (
      ok (some (updated now v body)),
      record s { identities = Table.put s.identities v.id (updated now v body) },
    )
unfolding serve handle_update_identity Stored.get Stored.update Table.get Table.put
stored_again now s v body e = rw (e, body_or_400, e) refl

update_stored :
    (now : Time) (id : String) (s : Store) (v body : Identity)
    → Table.get s.identities id ≡ some v
    → v.id ≡ id
    → serve (updates now id (some body)) s ≡ (
      ok (some (updated now v body)),
      record s { identities = Table.put s.identities v.id (updated now v body) },
    )
update_stored now id s v body e k =
    ap (λ i. serve (updates now i (some body)) s) (sym k)
    ∙ stored_again now s v body (ap (Table.get s.identities) k ∙ e)

update-Agrees :
    (now : Time) (id : String) (body : Option Identity) (s : Store) (m : Collection)
    → Represents s m
    → Agrees (serve (updates now id body) s) (spec (updates now id body) m)
unfolding spec
update-Agrees now id none s m h = elim (Option-cases (m id)) [
  | inl e ↦
      rw (update_missing now id s none (h.same id ∙ e), e) (record { response = refl; state = h })
  | inr (v, e) ↦
      rw (update_undecoded now id s v (h.same id ∙ e), e) (record { response = refl; state = h })
]
update-Agrees now id (some body) s m h = elim (Option-cases (m id)) [
  | inl e ↦
      rw (update_missing now id s (some body) (h.same id ∙ e), e)
        (record { response = refl; state = h })
  | inr (v, e) ↦
      rw (update_stored now id s v body (h.same id ∙ e) (h.keyed id v e), e)
        (record {
          response = refl;
          state = set-Represents s m id (updated now v body) (h.keyed id v e) h;
        })
]

serve-Agrees :
    (c : Call) (s : Store) (m : Collection) → Represents s m → Agrees (serve c s) (spec c m)
unfolding serve spec handle_create_identity handle_get_identity handle_delete_identity Stored.create
    Stored.get Stored.delete
serve-Agrees (creates id now none) s m h = record { response = refl; state = h }
serve-Agrees (creates id now (some body)) s m h = record {
  response = refl;
  state = set-Represents s m id (created id now body) refl h;
}
serve-Agrees (reads id) s m h = elim (Option-cases (m id)) [
  | inl e ↦ record { response = rw (h.same id, e) refl; state = h }
  | inr (v, e) ↦ record { response = rw (h.same id, e) refl; state = h }
]
serve-Agrees (updates now id body) s m h = update-Agrees now id body s m h
serve-Agrees (deletes id) s m h = record { response = refl; state = unset-Represents s m id h }

-- The identities that the interface serves refine an abstract collection, a partial function from
-- identifiers: for every sequence of requests that create, read, replace or delete an identity, with
-- bodies that decode or do not, the program gives exactly the responses of the collection, errors
-- included, and its table represents the collection afterwards. At the start the table is assumed
-- to represent it, each identity under its own identifier.
pub serve_all-Represents :
    (cs : List Call) (s : Store) (m : Collection)
    → Represents s m
    → ((serve_all cs s).0 ≡ (spec_all cs m).0) × Represents (serve_all cs s).1 (spec_all cs m).1
unfolding serve_all spec_all
serve_all-Represents [] s m h = (refl, h)
serve_all-Represents (c ∷ r) s m h =
    let a = serve-Agrees c s m h in
    let (same, after) = serve_all-Represents r (serve c s).1 (spec c m).1 a.state in
    (cc (a.response, same), after)
