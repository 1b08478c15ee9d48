-- ===== src/Lib.antt =====
-- Execution grants and their enforcement: the offline verifiers of execution grants
-- (packages/middleware/src/verify-grant.js), the middleware that guards a route with them
-- (packages/middleware/src/index.js), and the adapters that let one grant be used once, above all
-- the git adapter (demo/src/git-atomic.js).
--
-- Parts and files.
--
--   Prelude: names of the libraries passed on, tests, lists, texts (join, split_on), integers.
--   Json, Runtime: the values of JSON.parse, and what the program takes from Node.js (hashing,
--   signatures, base64url, dates, conversions to text) as a record `Node` of functions.
--   Grant/Verdict, Options, Token, Profile: the answers, the caller's options and the checks that
--   both versions share, the split of a token, grantProfile, normalizeGrant and peekKid.
--   Grant/V1 (verifyExecutionGrant) and Grant/V2 (verifyExecutionGrantV2, canonicalJsonV2):
--   the parsers and the checks. A sequence of early returns is a list of gates, of which the first
--   refusal is the answer. Grant/AnyVersion is verifyExecutionGrantAnyVersion.
--   Git/Repo, Git/Execute: gitAtomicExecute over a repository state. The git commands are a record
--   `GitTool` of functions; IsTransactional is the documented behaviour of a batch of two updates of
--   `git update-ref --stdin` that lands, for refs by full names that no other ref shadows; when git
--   lands a batch is left to it. Git/Laws has the proofs.
--   Git/Retention: signedExpMs, isTerminalEntry and cleanupEligibleAt. Git/Reconcile: reconcileRef,
--   listConsumedLedger and reconcileLedger. Git/Hook: the decision of the pre-receive hook of
--   demo/src/ledger-hook.js.
--   Spi (demo/src/adapter-spi.js) and Spi/Adapters: checkInput, isConsumeOnceResult and consumeOnce
--   of the three adapters. The Postgres query is a function, the repository an option.
--   Guard (packages/middleware/src/index.js): executionGrantGuard as a function from a request to an
--   answer; Guard/Keys is loadKeyring, Guard/Body captureRawBody over a sequence of events,
--   Guard/Remedy deny-remedy.js. Importing a key and reading the keys file are parameters.
--   Continuity (demo/src/authorization-continuity.js): assessContinuity, its texts left out.
--   Attestation (demo/src/atomic.js): verifyAtomicExecutionAttestation. The encoding stands in
--   Git/Execute.
--   Postgres (demo/src/atomic.js): atomicExecute. The statements of a session, ROLLBACK too, are
--   a parameter, functions on a state; each may throw. The gate itself (demo/sql/gate.sql) is not
--   modelled.
--   Http (demo/src/http-atomic.js): Http/Request has the parts of a request and observeEtag,
--   Http/Canary providerCanary and its gate, Http/Execute httpAtomicExecute. `fetch` and the origin
--   behind it are a record `Origin` of one function on a state, so that other writers may act between
--   two requests. Http/Laws/Swap states what RFC 9110 asks of an origin as IsConforming. The write
--   that it reports is taken up by Reconcile in Reconcile/Laws/Executed.
--   Reconcile (demo/src/reconcile.js): Reconcile/Report is the vocabulary, the check
--   enforceNoUnprovenConfirmed and the roll-up, Reconcile/Keyring the key manifest and its windows
--   (with demo/src/posture.js), Reconcile/Stored verifyStoredAttestation, Reconcile/Readers the three
--   readers and Reconcile/Rollup `reconcile`. It uses Git/Reconcile and Attestation.
--   Transition (demo/src/target-state-transition.js): Transition/Attested is
--   verifyTransitionAttestation, Transition/Grade gradeStateTransition with parentsOf. The verifier of
--   the attestation and `git cat-file` are parameters.
--   Posture (demo/src/posture.js): Posture/Receipt is verifyPostureReceipt, with the keys of
--   Reconcile/Keyring, and Posture/Drift walkDiff and diffFacts over a baseline that is given.
--   Samples: a small runtime and grants, on which the tests run.
--
-- Conditions of the model. A text is a list of code points. Time stamps are whole milliseconds.
-- A JSON object has each key once. Numbers other than integers are known by the text that
-- JavaScript prints for them. All functions are structurally recursive; no fuel is used. Refs and
-- values of a batch hold no space and no line end. The hash is any function: where a proof
-- needs it to be injective, the theorem states it.
--
-- Not modelled: the HTTP servers, the client of the authorize service, the reading of the database
-- catalog, the SQL of the Postgres gate, the command lines and the copy of the verifier library in
-- packages/verifier-core.
pub mod Prelude
pub mod Json
pub mod Runtime
pub mod Grant
pub mod Git
pub mod Spi
pub mod Guard
pub mod Continuity
pub mod Attestation
pub mod Postgres
pub mod Samples
pub mod Http
pub mod Posture
pub mod Reconcile
pub mod Transition
