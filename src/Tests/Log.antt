-- ===== src/Tests/Log.antt =====
-- The audit log at concrete inputs.
use oiaf.Base.{
  ℕ, codes, List, eqb, pos, true, ◌≡◌, refl, ◌∙◌, ◌⊎◌, some, none, [], ◌∷◌, ◌++◌, map, arith,
  if◌then◌else◌,
}
use oiaf.Base.Action.{ok}
use oiaf.Base.Selection.{IsSelection}
use oiaf.Types.Enums.{Decision, ActorType, TargetType}
use oiaf.Types.Entities.{AuditEvent}
use oiaf.Storage.State.{Store, new_memory_store}
use oiaf.Storage.AuditLog.{
  Bytes, Hasher, AuditFilter, chained, compute_audit_hash, append, verify, list,
}
use oiaf.Storage.AuditLog.Chain.{append_all, last_hash, verify-append_all}
use oiaf.Storage.AuditLog.Braces.{NoBrace}
use oiaf.Storage.AuditLog.Tamper.{texts, inputs, Collision, IsEncoding, tamper_evident}
use oiaf.Storage.AuditLog.Gaps.{relink, verify-relink, verify-truncated}
use oiaf.Storage.AuditLog.Search.{within_limit, Passes, list-wanted}
use oiaf.Audit.{Report}

-- An encoding of some fields, and a digest that keeps everything but the braces.
abbrev unbraced : ℕ → ℕ
unbraced a = if eqb a 123 then 124 else a

abbrev encoder : Hasher
encoder = record {
  marshal = λ x. some (
      123
      ∷ (codes x.id
          ++ 44
            ∷ (codes x.type
                ++ 44
                  ∷ (codes x.actor.id
                      ++ 44 ∷ (codes x.target.id ++ 44 ∷ (x.risk_score ∷ x.previous_hash))))));
  sha256_hex = λ b. 125 ∷ map unbraced b;
}

unbraced-NoBrace : (b : Bytes) → NoBrace (map unbraced b)
unbraced-NoBrace [] = tt
unbraced-NoBrace (a ∷ r) = (ground arith, unbraced-NoBrace r)

encoder-IsEncoding : IsEncoding encoder
encoder-IsEncoding = record {
  marshal_brace = λ x b h. (
    codes x.id
        ++ 44
          ∷ (codes x.type
              ++ 44
                ∷ (codes x.actor.id
                    ++ 44 ∷ (codes x.target.id ++ 44 ∷ (x.risk_score ∷ x.previous_hash)))),
    cc (h),
  );
  digest_nonempty = λ b h. cc h;
  digest_NoBrace = λ b. (λ e. omega (arith, e), unbraced-NoBrace b);
}

abbrev event : AuditEvent
event = record {
  id = "e1";
  timestamp = 7;
  type = "access.evaluate";
  actor = record { type = ActorType.user; id = "alice" };
  target = record { type = TargetType.resource; id = "vault" };
  decision = some Decision.deny;
  risk_score = 80;
  reasons = "bad_ip_reputation" ∷ [];
  metadata = [];
  previous_hash = [];
  hash = [];
}

abbrev revoked : AuditEvent
revoked = record event {
  id = "e2";
  timestamp = 9;
  type = "token.revoke";
  decision = none;
  risk_score = 0;
}

abbrev log : Store
log = append_all encoder (event ∷ (revoked ∷ [])) new_memory_store

-- The same log with the stored previous hashes overwritten.
abbrev forged : Store
forged = record log { audit_events = map (relink (λ e. 9 ∷ [])) log.audit_events }

verify-append_all_example : (verify encoder log).0 ≡ ok (true, 2)
verify-append_all_example = verify-append_all encoder (event ∷ (revoked ∷ []))

verify-relink_example : (verify encoder forged).0 ≡ (verify encoder log).0
verify-relink_example = verify-relink encoder (λ e. 9 ∷ []) log

one_hash : last_hash [] log.audit_events ≡ last_hash [] forged.audit_events
unfolding append chained
one_hash = refl

tamper_evident_example :
    (texts encoder [] log.audit_events ≡ texts encoder [] forged.audit_events)
    ⊎ Collision encoder (inputs encoder [] log.audit_events) (inputs encoder [] forged.audit_events)
tamper_evident_example =
    tamper_evident encoder encoder-IsEncoding log forged 2 2 verify-append_all_example
      (verify-relink_example ∙ verify-append_all_example) one_hash

abbrev first : AuditEvent
first = chained encoder [] event

abbrev second : AuditEvent
second = chained encoder first.hash revoked

two_events : log.audit_events ≡ (first ∷ []) ++ (second ∷ [])
unfolding append chained compute_audit_hash
two_events = refl

verify-truncated_example :
    (verify encoder (record log { audit_events = first ∷ [] })).0 ≡ ok (true, 1)
verify-truncated_example =
    verify-truncated encoder log (first ∷ []) (second ∷ []) 2 two_events verify-append_all_example

abbrev filter : AuditFilter
filter = record {
  identity_id = "alice";
  resource_type = "";
  decision = "deny";
  risk_score_min = pos 50;
  type = "access.evaluate";
  since = "";
  until = "";
  limit = pos 1;
}

list-wanted_example :
    (es : List AuditEvent) × IsSelection (Passes (λ text. none) filter) es log.audit_events
    × ((list (λ text. none) filter log).0 ≡ ok (within_limit (pos 1) es))
list-wanted_example = list-wanted (λ text. none) filter log

abbrev report : Report
report = record {
  type = "access.evaluate";
  actor = record { type = ActorType.user; id = "alice" };
  target = record { type = TargetType.resource; id = "h" };
  decision = some Decision.deny;
  risk_score = 40;
  reasons = "r" ∷ [];
  metadata = [];
}
