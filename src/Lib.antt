-- ===== src/Lib.antt =====
-- OIAF, an identity and access control plane: who may do what is decided from a risk score and
-- policies, a doubtful request is answered with a challenge that a second factor resolves, and every
-- step is written to a hash-chained log. This library models the daemon's core, the adapter that
-- reads Okta's log, and the one that acts on decisions in Active Directory.
--
-- The parts, and the files of the program that they model:
--   Types                  core/internal/types/types.go: entities, requests, enumerations
--   Json                   the syntax trees that encoding/json reads
--   Risk                   core/internal/risk/engine.go: `Score` and `level`
--   Storage                core/internal/storage/memory.go: one module for each kind of entity,
--                          Storage.State for the struct, Storage.AuditLog for the hash chain
--   Audit                  core/internal/audit/audit.go: `Emit`, `List`, `Verify`
--   Mfa.Totp, Mfa.Push, Mfa.WebAuthn
--                          core/internal/mfa/totp.go, push.go and webauthn.go
--   Challenge              core/internal/challenge/service.go: the orchestrator of challenges
--   Policy                 core/internal/policy/engine.go; Policy.Values is what it uses of Go's
--                          library, Policy.Request the request as a map, Policy.Conditions the
--                          condition language
--   Auth                   core/internal/auth/auth.go and middleware.go
--   Api                    core/internal/api/api.go: `handleAccessEvaluate` and
--                          `handleChallengeVerify`; Api.Routes has the other handlers
--   Config                 core/internal/config/config.go: defaults, environment, switches
--   Discovery              core/internal/discovery/engine.go: behavioural profiles and baselines
--   Inventory              core/internal/inventory/scanner.go: the accounts of a directory
--   Okta                   adapters/okta: client.go (Events, Pages), state.go, signals.go (Signals,
--                          Memory), poller.go, credential.go, and sink.go and fixture.go (Sink)
--   Response               adapters/ad-response: the actions on accounts of a directory, the webhook
--   Fmt                    what Response uses of Go's `fmt`
--   Strconv                what Inventory, Api, Config and Fmt use of Go's `strconv` and `strings`
--   Base                   helpers that the parts share
--   Tests                  the theorems at concrete inputs
-- The other modules below a part hold its lemmas and theorems. A handler of Api calls Risk, Policy,
-- Challenge and Audit, those of Api.Routes Storage, Mfa, Discovery and Inventory; Challenge calls Mfa,
-- Audit and Storage; all state of the daemon is the one `Store`. The Okta adapter and the
-- Response adapter are programs of their own.
--
-- How the code is modelled:
--   * An operation is a function from the store to a result and a store, so that what was written
--     before an error stays written. `Result` holds the value or the error.
--   * A Go map is a table of keys and values. Ranges go in the order of the table; the theorems
--     are about every table, and so about every order of a Go map.
--   * The memory store hands out pointers to what it holds. Where the code writes through such a
--     pointer, the model writes to the table at the same place.
--   * Each operation of the store holds its lock, and is one step here. Readings of the clock, fresh
--     identifiers and random values are arguments. A time is a number of nanoseconds since Go's
--     zero time, and the lifetime of challenges and the window of push approvals are durations that
--     are not negative. Histories of Challenge take the orchestrator's methods one after the other, in any
--     order and with any arguments.
--   * SHA-256, HMAC, bcrypt, one-time codes, go-webauthn, JSON encoding, float64, regular
--     expressions, `sort.Slice`, LDAP, YAML, `net/url` and the servers are parameters, most in a
--     record beside the part that uses them. What a theorem assumes of one stands among its hypotheses.
--   * Conditions of policies are evaluated on fuel, one more than the size of the condition, and
--     each step goes to parts of a decoded object, which are smaller. encoding/json
--     refuses texts that nest more than 10,000 deep; the trees here are of texts that it reads.
--
-- `Sprintf` of a number is on fuel for 20 digits, as many as one of 64 bits has. The Okta adapter's
-- fetches are bounded by the cap on pages and five attempts for each page: both are
-- counted down.
--
-- Not modelled: core/internal/bus, server, middleware, logging, ui, webauthntest and
-- policy/opa, core/cmd, cli, tools, adapters/dc-agent and adapters/pam, which are input and output,
-- wiring, or separate programs; of the Okta adapter the state file, the waiting times, the bytes of error bodies,
-- its configuration and the sending of its requests; the health check of ad-response; the routing table and the
-- encoding of responses in core/internal/api.
pub mod Base
pub mod Json
pub mod Strconv
pub mod Types
pub mod Response
pub mod Risk
pub mod Storage
pub mod Audit
pub mod Mfa
pub mod Challenge
pub mod Policy
pub mod Auth
pub mod Api
pub mod Fmt
pub mod Inventory
pub mod Config
pub mod Discovery
pub mod Okta
mod Tests
