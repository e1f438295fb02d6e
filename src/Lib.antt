-- ===== src/Lib.antt =====
-- A model of the core of surgical-dev-ops: the parts that decide whether a governed mutation of a
-- workspace may happen, and what counts as having happened.
--
-- Transaction models accelerator/core/mutation-transaction.js. A transaction is an immutable record with a history
-- of events; Transaction.Operations has the operations (createMutationTransaction, bindMutationLock,
-- createCommitAuthorityEvidence, bindCommitAuthorityEvidence, bindMutationRecoveryEvidence,
-- transitionMutationTransaction, assertSameMutationTransaction), Transaction.Validate is
-- requireTransaction, which every operation calls first, Transaction.Authority is
-- requireCommitAuthorityEvidence, Transaction.Data the definition and the identities, Transaction.Stage
-- the stages and the transition table. An operation is a function into Outcome, a value or a thrown
-- message. Transaction.Steps makes of the operations a step relation.
-- Clock models accelerator/core/authoritative-clock.js: readings, progressions and expiry in Clock itself, the time
-- evidence of classifyMutationAuthority in Clock.Authority, the clock over its port in Clock.Port. The
-- transaction's evidence carries such time evidence, and is checked by classifying it again.
-- Recovery models accelerator/core/mutation-recovery.js; Recovery.Classify is classifyMutationRecovery. The
-- transaction binds the evidence that it makes.
-- Lifecycle models accelerator/reconstruction/v3/core/operation-state-contract.js.
-- Runner models accelerator/core/mission-runner-policy.js: Runner.Envelope the envelope, Runner.Evidence the
-- identity of evidence, Runner.Step evaluateMissionRunnerStep.
-- Framing models accelerator/adapters/local-ipc-framing.js: encodeFrame and the decoder; canonicalSerialize
-- is in Framing.Serialize.
-- Lock models accelerator/adapters/mutation-lock-adapter.js: acquiring, releasing and inspecting the lock of a
-- target over the directory of locks, a map from ids to what their files hold. It binds the lock to a
-- transaction by bindMutationLock. Lock.Claim has the claims of a recovery.
-- Mode models accelerator/core/interaction-mode.js.
-- Protocol models accelerator/core/control-plane-protocol.js: Protocol.Request is validateRequest,
-- Protocol.Reply the checks of answers, Protocol.Credentials assertCredentialFree, Protocol.Copy
-- deepFreezeCopy, Protocol.Serialize canonicalSerialize and the schema.
-- Registry models accelerator/adapters/control-plane-submission-registry.js: three maps that share their
-- records. Registry.Claim is claim, Registry.Observe has get, observe and inspect, Registry.Spec the list of
-- submissions that the maps refine and the sequences of calls.
-- Service models accelerator/core/control-plane-service.js over that registry: negotiate and capabilities in
-- Service, submit, reconcile, inspect and cancel in Service.Operations. It checks requests by Protocol,
-- and its answers are held against Protocol's checks. An operation gives the registry after it beside
-- its outcome, since one that throws may have claimed before. A submission is two functions, submit up to
-- the await of the gateway and resume from there on; Service.Reported makes of the calls a sequence of
-- steps in which any others may come between the two.
-- Risk models accelerator/core/risk-classification.js: levels and defects in Risk, evaluatePolicy and
-- classifyScope in Risk.Classify, evaluateR3ApprovalAuthority in Risk.Approval. An approval rests on an
-- identity that Identity verifies, which models accelerator/core/human-identity-assertion.js
-- (Identity.Evaluate has the evaluation), and both ask the Clock whether a reading lies in their
-- intervals. A denial is the throw of its reason; where the file system resolves an authorised root, an
-- argument says how.
-- Base has the shared types and lemmas, Json the untyped values and canonicalJson, NodePath the
-- functions of node:path, Timestamp the ISO timestamps; Tests runs the model at concrete inputs.
--
-- Conventions. An object that comes from outside is a Value, which carries the flag that
-- Object.isFrozen reads and holds each key once; prototypes and symbols are not modelled. A regular
-- expression is tested on texts alone. Where the source compares objects by identity, a Boolean says
-- whether they are the same, and of the registry's records a number says which object each is. Texts are lists of code points, compared in their order; a text of the
-- years 0 to 9999 is read as a timestamp; thresholds, with their defaults
-- filled in, counts of attempts and of lines, and versions are natural numbers. Paths are those of
-- POSIX. An upper case outside ASCII and Latin-1 is not computed, since no symbol of the source has one. An error is a message, which may leave out the value that the source
-- quotes in it.
-- sha256, the digest of node:crypto, is an argument of the definitions, and no result below assumes
-- anything of it. The decoder of frames takes JSON.parse after the UTF-8 decoder as an argument, and the readings
-- of the monotonic clock as a sequence; callbacks are events in order, and do not call the decoder.
-- A protocol error is its classification and its code. Values are trees, so no object occurs twice in a
-- message. What a regular expression of the control plane tests is coerced to a text first, as the
-- source does. A natural number prints its decimal digits, from 10 ^ 21 on with an exponent; above 2 ^ 53
-- these may be more digits than the source's. An evaluation of the clock shares no object between its
-- reading, its bounds and its progression, but for the freezing of the reading that checking it does.
-- Loops are recursions on the list that they read, but for the decoder's, which has as much fuel as
-- there are bytes pending: a round that goes on takes at least four.
--
-- Not modelled: the second protocol, the physical and the durable registries of the control plane, the
-- journal adapter, providers, capability grants and the orchestrator; the command line, sandboxes, transports and native helpers, which are calls of the
-- system.
pub mod Base
pub mod Json
pub mod Timestamp
pub mod Clock
pub mod NodePath
pub mod Recovery
pub mod Transaction
pub mod Lifecycle
pub mod Runner
pub mod Framing
pub mod Lock
pub mod Mode
pub mod Protocol
pub mod Registry
pub mod Service
pub mod Identity
pub mod Risk
mod Tests
