-- ===== src/Mfa/Push.antt =====
-- Push approvals: core/internal/mfa/push.go. HMAC and SHA-256, in hexadecimal, and the texts of
-- numbers and times are a parameter.
pub mod Laws
use oiaf.Base.{
  ℕ, ◌-◌, ◌+◌, ℤ, pos, Bool, true, false, not, ◌&&◌, ◌||◌, String, Option, none, some, List, [],
  ◌∷◌, ◌++◌, codes, ltb, bytes_eq, if◌then◌else◌,
}
use oiaf.Base.Action.{Result, ok, err, Action, lift, guard, pure, ◌>>=◌, ◌>>◌}
use oiaf.Types.Entities.{Time, Device}
use oiaf.Types.Errors.{
  Error, timestamp_outside_window, device_not_found, invalid_signature, external,
}
use oiaf.Storage.State.{Store, Db}
use oiaf.Storage.Devices

abbrev pub Bytes : Type 0
Bytes = List ℕ

-- A `time.Time` that was decoded: an instant, and the offset of the zone that it was written with,
-- which its text keeps.
pub record Moment : Type 0 where
  pub instant : Time
  pub offset : ℤ

-- `hex.EncodeToString`, the HMAC of a payload under a key and the hash of a text, both in
-- hexadecimal, `%d` and `Format(time.RFC3339)`.
pub record Signer : Type 0 where
  pub to_hex : Bytes → Bytes
  pub compute_hmac : Bytes → Bytes → Bytes
  pub hash_secret : Bytes → Bytes
  pub decimal : ℤ → Bytes
  pub rfc3339 : Moment → Bytes

pub record PushService : Type 0 where
  pub signer : Signer
  pub skew_window : Time

-- `crypto/rand` gives bytes or fails.
unfoldable pub register_device :
    Signer → String → Time → Option Bytes → String → String → Db (Device × Bytes)
unfolding Devices.create
register_device x id now entropy identity_id name = elim entropy [
  | none ↦ lift (err (external "rand"))
  | some raw ↦ (do
    let secret = x.to_hex raw
    let device : Device = record {
      id = id;
      identity_id = identity_id;
      name = name;
      managed = true;
      compliant = true;
      secret_hash = x.hash_secret secret;
      created_at = now;
    }
    Devices.create device
    pure (device, secret))
]

-- `rand.Int(rand.Reader, big.NewInt(100))` gives a number below 100 or fails.
unfoldable pub generate_number : Option ℕ → Result Error ℤ
generate_number none = err (external "rand")
generate_number (some n) = ok (pos n)

-- `fmt.Sprintf("%s|%d|%s", …)`
unfoldable pub payload : Signer → String → ℤ → Moment → Bytes
payload x challenge_id number timestamp =
    codes challenge_id ++ (b'|' ∷ (x.decimal number ++ (b'|' ∷ x.rfc3339 timestamp)))

-- `time.Since(t) > window || time.Until(t) > window`, at the time `now`
unfoldable pub is_outside_window : Time → Time → Time → Bool
is_outside_window window now t = ltb window (now - t) || ltb window (t - now)

-- The error of the store is replaced.
abbrev or_device_not_found : Result Error Device → Result Error Device
or_device_not_found (ok d) = ok d
or_device_not_found (err e) = err device_not_found

unfoldable pub verify_approval : PushService → Time → String → String → ℤ → Bytes → Moment → Db Unit
unfolding is_outside_window payload Devices.get
verify_approval p now device_id challenge_id number signature timestamp = do
  guard (not (is_outside_window p.skew_window now timestamp.instant)) timestamp_outside_window
  device ← (λ s. (or_device_not_found (Devices.get device_id s).0, s))
  guard
      (bytes_eq signature
        (p.signer.compute_hmac (payload p.signer challenge_id number timestamp) device.secret_hash))
      invalid_signature
  pure tt

unfoldable pub compute_push_signature : Signer → Bytes → String → ℤ → Moment → Bytes
unfolding payload
compute_push_signature x device_secret challenge_id number timestamp =
    x.compute_hmac (payload x challenge_id number timestamp) (x.hash_secret device_secret)
