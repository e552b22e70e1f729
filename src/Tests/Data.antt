-- ===== src/Tests/Data.antt =====
-- A small installation: one identity with a TOTP factor and a device, one policy, and stand-ins for
-- the code outside the program.
use oiaf.Base.{natural, ◌+◌, pos, true, false, ◌==◌, none, some, [], ◌∷◌, ◌++◌, codes, length}
use oiaf.Json.{Json, string, object, field, end}
use oiaf.Types.Enums.{Decision, MfaMethod, ChallengeStatus, FactorStatus}
use oiaf.Types.Access.{AccessRequest}
use oiaf.Types.Entities.{Challenge, Device, Factor, Policy}
use oiaf.Storage.State.{Store, new_memory_store}
use oiaf.Storage.AuditLog.{Hasher}
use oiaf.Audit.{Stamp}
use oiaf.Mfa.Totp.{TotpLib}
use oiaf.Mfa.Push.{Signer, PushService}
use oiaf.Challenge.{Service, Clock, Fresh, Approval}
use oiaf.Policy.{EngineLib}
use oiaf.Auth.{Bcrypt}
use oiaf.Risk.{default_thresholds}
use oiaf.Api.{Handler, Moment}
use oiaf.Tests.Sorting.{insertion_sort}

abbrev pub totp_lib : TotpLib
totp_lib = record {
  generate = λ issuer account. some ("secret", "url");
  validate = λ code secret now. code == "123456";
  validate_custom = λ code secret now. some (code == "654321");
}

abbrev pub signer : Signer
signer = record {
  to_hex = λ raw. raw;
  compute_hmac = λ message key. key ++ message;
  hash_secret = λ secret. 7 ∷ secret;
  decimal = λ n. 1 ∷ [];
  rfc3339 = λ t. t.instant ∷ (natural t.offset ∷ []);
}

abbrev pub push_service : PushService
push_service = record { signer = signer; skew_window = 300 }

abbrev pub hasher : Hasher
hasher = record { marshal = λ e. some (123 ∷ codes e.id); sha256_hex = λ b. (length b + 124) ∷ b }

abbrev pub service : Service
service = record {
  totp = totp_lib;
  push = push_service;
  webauthn = none;
  hasher = hasher;
  ttl = 600;
  max_attempts = pos 3;
}

abbrev pub clock : Clock
clock = record { checked = 1000; verified = 1001; resolved = 1002 }

abbrev pub stamp : Stamp
stamp = record { id = "e1"; time = 1003 }

abbrev pub fresh : Fresh
fresh = record {
  id = "c2";
  nonce = "n";
  draw = some 42;
  expiry_base = 1000;
  created_at = 1000;
  stamp = stamp;
}

abbrev pub pending : Challenge
pending = record {
  id = "c1";
  identity_id = "u1";
  request_id = "r1";
  methods = MfaMethod.totp ∷ (MfaMethod.push ∷ []);
  status = ChallengeStatus.pending;
  push_number = pos 42;
  nonce = "n";
  webauthn_session = "";
  attempts = 2;
  max_attempts = pos 3;
  expires_at = 1500;
  created_at = 900;
  resolved_at = none;
}

abbrev pub factor : Factor
factor = record {
  id = "f1";
  identity_id = "u1";
  method = MfaMethod.totp;
  status = FactorStatus.active;
  secret = "secret";
  credentials = "";
  created_at = 800;
}

-- A device of another identity.
abbrev pub device : Device
device = record {
  id = "d9";
  identity_id = "u9";
  name = "phone";
  managed = true;
  compliant = true;
  secret_hash = 7 ∷ 5 ∷ [];
  created_at = 800;
}

abbrev pub store : Store
store = record new_memory_store {
  challenges = ("c1", pending) ∷ [];
  factors = ("f1", factor) ∷ [];
  devices = ("d9", device) ∷ [];
}

abbrev pub approval : Approval
approval = record {
  device_id = "d9";
  number = pos 42;
  signature = 7 ∷ (5 ∷ (codes "c1" ++ (b'|' ∷ (1 ∷ (b'|' ∷ (1001 ∷ (7200 ∷ [])))))));
  timestamp = record { instant = 1001; offset = pos 7200 };
}

abbrev pub condition : Json
condition = object (
    field "path" (string "protocol.name")
      (field "op" (string "eq") (field "value" (string "ntlm") end)))

abbrev pub policy : Decision → Policy
policy d = record {
  id = "p1";
  description = "";
  enabled = true;
  priority = pos 10;
  effect = d;
  conditions = some condition;
  challenge = none;
  created_at = 0;
  updated_at = 0;
}

abbrev pub with_policy : Decision → Store
with_policy d = record store { policies = ("p1", policy d) ∷ [] }

abbrev pub engine : EngineLib
engine = record {
  go = record {
    show = λ n. "0";
    less = λ a b. false;
    in_range = λ n. true;
    match = λ pattern text. none;
  };
  sort_policies = insertion_sort;
  sort_decisions = insertion_sort;
}

abbrev pub request : AccessRequest
request = record {
  identity = record {
    username = "alice";
    groups = [];
    type = "human";
    privileged = false;
    usual_geo = "";
    last_logon_days = pos 0;
    password_never_expires = false;
    has_spn = false;
    is_gmsa = false;
  };
  resource = record { type = "host"; name = "h"; sensitivity = "LOW" };
  protocol = record { name = "ntlm" };
  source = record { ip = ""; geo = ""; reputation = "" };
  device = record { managed = true; compliant = true };
  context = record { mfa_recent = true; interactive = false; baseline_deviation = false };
}

abbrev pub handler : Handler
handler = record { thresholds = default_thresholds; engine = engine; service = service }

abbrev pub moment : Moment
moment = record { request_id = "r2"; fresh = fresh; stamp = stamp }

abbrev pub bcrypt : Bcrypt
bcrypt = record {
  generate = λ password. some password;
  compare = λ hash password. hash == password;
}
