-- ===== src/Lib.antt =====
-- Verification library of the KyPost server: the Go daemon under backend/ that classifies mail, pushes
-- notifications to paired native apps and serves the admin API.
--
-- The parts that are modelled, and where:
--
-- - Lockout (backend/internal/api/login_lockout.go, `failureLockout`): the keyed strike counter that
--   guards login, CardDAV Basic Auth, second factors and device secrets. `FailureLockout` is its state,
--   `allowed`, `record_failure` and `record_success` are its operations. Strikes follows the failures of
--   one key, Isolation is about several keys, Sweep is about the sweep of a large map.
-- - Cooldown (backend/internal/api/mfa_push_cooldown.go, sendas_cooldown.go, native_pairing_nonce.go):
--   three small keyed clocks, one module each: Push (`mfaPushCooldown`), SendAs
--   (`sendAsVerificationCooldown`) and Nonce (`consumedNativePairingNonces`).
-- - Challenges (backend/internal/mfa/mfa.go, `Store`): login challenges, their TOTP attempts and their push
--   approvals. A `Call` is one use of the store and `run` is any sequence of them. Trace gives the life
--   of a single challenge apart from the store and proves that the store refines it; Redeem and Attempts
--   prove what a challenge can be used for.
-- - Disk (backend/internal/fsutil/fsutil.go, `AtomicWriteFile`; os.ReadFile and json.Unmarshal): a file
--   of one JSON document, which is missing, not JSON of its type, or holds the document. `Io` says
--   whether the reads and writes of one operation succeed.
-- - Users (backend/internal/users/users.go, `Store`): the accounts in users.json. Operations has the
--   operations that change one account, Mutation says what a `mutate` does to the file, Steps is the
--   relation of all changes to the store, Replay and Recovery use it for TOTP steps and recovery codes.
-- - State (backend/internal/state/store.go, `Store`): what is kept for one user. Persist has the loads, the
--   partial loads and the write of state.json (`applyStateFile`, `refresh...FromDiskLocked`,
--   `persistLocked`); `update` is the shape that its operations share and `Act` what one does between.
--   Open is `New`; Processed, Queue, Subscriptions, Notices, Pairing and Devices have the operations.
--   Calls is any sequence of them. Invariant, Established and Kept carry a property of the memory and
--   the file through every operation; Queue.Numbered, Queue.Delivery, Notices.Once, Pairing.Once and
--   Devices.Approvers use them; Torn is about a file that a write has broken.
-- - Accounts (backend/internal/api/server_users.go, with `userStore`, `revokeUserDevices` and
--   `revokeUserSessions`): the handlers of the user administration, over Users, State and Challenges.
--   Handlers has them, Requests is any sequence of requests, Admins and LastAdmin are about the guard of
--   the last admin.
-- - Document (backend/internal/fsutil/fsutil.go, `LoadJSONFile` and `PersistJSONFile`): a store that keeps
--   one document in memory beside its file. `transact` is the shape of an operation, `Change` what it does
--   with the document that it has read, and Runs says what is kept through it.
-- - Contacts (backend/internal/contacts/contacts.go, store.go, `Store`): the address book in contacts.json.
--   Operations has Upsert, UpsertWithPrecondition and Delete, with SelfFlag (`SetSelf`, `GetSelf`) and
--   Changes (`ChangedSince`, `GC`); Ops is any use of them. Finds, Clears, Tracked and Kept are about
--   the search by UID, Sync is about sync clients, Guarded about preconditions, Self about the self flag.
-- - Mailcache (backend/internal/mailcache/mailcache.go, store.go, `Store`): the windows of cached messages in
--   mailcache.json. Store has `Snapshot`, `Sync` and `Upsert`, Uses is any sequence of them; Entries and
--   Rounds carry what a polling client relies on through them, for Unmissed; Snapshots is about snapshots
--   and the bound of a window.
-- - Rules (backend/internal/rules/model.go, engine.go, store.go): the filter rules. Matching says when a rule
--   fires, Engine has `Evaluate` and `ApplyOutcome`, with Sorting, Walk and Applying about them, and Store
--   is the store in rules.json, with Found about its reads.
-- - SendAs (backend/internal/sendas/sendas.go, store.go, `Store`): the send-as aliases in
--   send_as_aliases.json. Uses is any use of the store, Earned and Stays are about verified aliases.
-- - Totp (backend/internal/totp/totp.go, `Validate`) and Retry (backend/internal/retry/retry.go, `Loop`).
-- - Login (backend/internal/api/server.go, `handleLogin`, `startSession`): the password step of a login and
--   the state that the login handlers share. SecondFactor has `handleMFATOTP`, `handleMFARecoveryCode` and,
--   from push_mfa_handlers.go, `handlePushPoll` and `handlePushFinish`. Earned says what a session needs,
--   Required is about accounts with a second factor, Once about a TOTP code that is used twice, Recovered
--   about recovery codes and Approved about approvals.
-- - Sessions (backend/internal/api/server.go, `currentUser`, `csrfCheckOK`, `withAuth`, `handleLogout`,
--   `handleChangePassword`, and `withAdmin` of server_users.go): a request from its cookie to the handler
--   behind it. Uses is any sequence of what changes the session map, Maps keeps its tokens apart, Revoked
--   is about a change of the password, Idle about the expiry and Admitted about the guard of admin handlers.
-- - Common: names of the library that every module uses, lists over the native numbers, and Dict, the
--   map that Go's `map[string]V` is modelled by: an association list, of which the laws speak by lookup.
-- - Tests: runs of the model at concrete inputs.
--
-- How the parts interact: the login handlers of backend/internal/api ask the lockout, then the user store,
-- then create a challenge; a second factor is checked against the challenge and the user store, and an
-- approval by a device resolves the challenge that the browser polls and redeems.
--
-- Conventions. A `time.Time` is a natural number of nanoseconds, 0 for the zero time, and an operation
-- reads the clock once, as its `now`; a Go `int` counter is a natural number, since it would take 2^63
-- operations to overflow. What the random source, the UUID generator and scrypt give is an argument. A
-- mutex makes each operation one step, so concurrent use of a store is a sequence of steps; a handler of
-- Accounts, Login or Sessions is taken as one step too, which the server does not ensure. An RFC 3339 text
-- stands for its second (`Stamp`), and strings.ToLower, strings.EqualFold and regexp are parameters. No
-- definition needs fuel: every loop of the code modelled here runs over a list or a map, or counts down.
--
-- Not modelled: network protocols (IMAP, SMTP, HTTP, CardDAV), cryptography (scrypt, AES-GCM, OpenPGP, TOTP's
-- HMAC), the JSON encoding, the frontend and the relay workers. Search and duplicate detection among
-- contacts, contact groups, the Sieve text of rules, the poller, and the HTTP handlers that are not named
-- above (TOTP enrollment, the answer of a device to a push, mail and contacts among them), are not
-- modelled either.
pub mod Common
pub mod Lockout
mod Tests
pub mod Cooldown
pub mod Challenges
pub mod Disk
pub mod Users
pub mod State
pub mod Accounts
pub mod Document
pub mod Contacts
pub mod Rules
pub mod SendAs
pub mod Mailcache
pub mod Totp
pub mod Retry
pub mod Login
pub mod Sessions
