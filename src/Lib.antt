-- ===== src/Lib.antt =====
-- ResilientMesh: recovery of failed payments. A webhook of a failed payment becomes an incident, a
-- model proposes an action for it, and a gate of fixed rules turns the proposal into a command or
-- into an abstention. Every decision is an entry of a hash-chained ledger, and a Merkle tree over
-- the ledger attests its entries to third parties. A circuit breaker for each issuer, shared by
-- all workers, sheds the load of an issuer that is down. Workers take incidents from a queue, ask
-- the gate, and present its commands to the gateway, now or when they are due.
--
-- Files and the code they model:
--   Base       tests on numbers, lists, ℤ over the native numbers, IEEE doubles as exact multiples of
--              2 ^ -1074 with NaN and the infinities, and results that may fail.
--   Text       Go strings as lists of bytes, with strings.TrimSpace and strings.ToLower, and their runes
--              (Runes).
--   Domain     internal/domain: the closed vocabularies and their parsers (decision.go, models.go),
--              the taxonomy of decline codes (models.go), mandate categories (records.go), and the
--              records that cross packages, with DiagnosticProposal's methods (decision.go); times
--              are nanoseconds on ℤ, with Go's saturating Sub and the wrap-around of a product of
--              int64s written out.
--   Gatekeeper internal/gatekeeper/gatekeeper.go: Config (withDefaults), Decide as the composition of
--              one function for each numbered rule in the order of the source, RequiresMandateHalt,
--              and the helpers. The policy engine is an optional function of the attempt, the class
--              and the telemetry.
--   Attest     internal/attest/merkle.go: the tree, its proofs and VerifyProof; the texts they hash (Texts).
--   Audit      internal/audit/ledger.go (Verify; Verdict has what its answer means) and the digest of
--              an entry (internal/domain/records.go).
--   Breaker    internal/breaker/breaker.go: the two Lua scripts as functions on the values behind an
--              issuer's keys (Scripts), Config and the life time of a key (Config), and runs of
--              calls and key expiries (Runs, Probes, Outage).
--   Modelcheck internal/modelcheck: the abstract states and their keys (Space), the input made from a state
--              (Input), the transition relation (Successors), the checks (Checks), the traversal (Search),
--              and RunContext with its report (Explorer), for any gate. The other modules are proofs:
--              Fixpoint on the traversal, Passing and Verdict on the checks, Reached, Seeds and Report on
--              runs against the real gate.
--   Outbox     internal/outbox/relay.go (Config, Relay) and the outbox statements of
--              internal/store/postgres.go (Table). An iteration is a function of the outcome of every
--              call it makes; Fates says what it does to a row, Reachable where runs of it lead.
--   Store      internal/store: the checks of texts and the errors (Checks), the incidents table (Incidents:
--              Table for postgres.go, Schedule for schedule.go), mandates, attempts, sessions, and
--              appendAudit (Ledger). Rows and Due have what the statements do to rows, Chain what they
--              make of the ledger.
--   Worker     internal/worker/worker.go: Config with the retry budget and dueAt (Config), what is around
--              a worker and what it changes (State), execute (Execute), Handle and dispatch (Handle), and
--              sweepDue (Sweep). A run of Handle is a function of the outcome of every call it makes.
--              Steps, Actions and Claims have what it adds to the log, Outcomes and Endings how it ends,
--              Runs every world that deliveries and sweeps lead to one after the other, and Interleaved
--              those of many workers at once, where a delivery is taken apart at its claim and what
--              follows the claim is one step.
--   Policy     internal/policy/policy.go: BackoffCeiling and BackoffFor (Backoff; Ceiling has their
--              proofs), ExpectedValue (Value), ChooseRail without its reason (Rails; Choice and Ranking
--              have its proofs), what they read of the telemetry (Telemetry), and the engine in the
--              gate (Gated).
--   Witnesses  the theorems at concrete inputs.
--
-- The gate reads the vocabularies, the taxonomy and the records of Domain; the ledger's entries
-- are the leaves that the attestation is built over, and Store appends them as Audit verifies them.
-- The model checker drives Decide of Gatekeeper and reads its commands; the engine of Policy is the
-- backoff of the gate; the relay hands the events of incidents to the workers through the queue.
-- Handle of Worker claims an incident by a statement of Store, calls Decide of Gatekeeper on it, and
-- ends with another statement; the sweep finds the due incidents by a third.
--
-- SHA-256 is a parameter, a function from byte texts to byte texts. Theorems that rest on the
-- size of its results say so (GivesDigests: 32 bytes), and none assumes that it has no
-- collisions: where an argument needs it, the theorem returns the collision instead. It lies
-- between two finite lists of texts that were hashed: those of the tree and those of the proof
-- (Attest/Texts), or the preimages of the two chains. A row of the ledger is read back with its
-- time at microseconds and its detail rendered by jsonb again; that this rendering is stable is a
-- hypothesis (IsRendering). The construction of the Merkle tree runs on fuel, the number of its
-- leaves, which is enough because a level of n digests has (n + 1) / 2 parents. The explorer's
-- loop runs on fuel, the bound on its states, which is enough because every admitted state is
-- visited once. The breaker's scripts compute with Lua's doubles, which are exact on the
-- milliseconds and counts they handle; a field of its hash holds a number or is not set, and the
-- scaled trip rate, a rounded product of doubles, is an argument, as is the product that turns a
-- probability into basis points. An int or an int64 is a ℤ; where the code relies on its range,
-- the range is a hypothesis (IsInt64) or the wrap-around is written out.
--
-- Not modelled: the breaker's index of issuers for the console and its transition callback; the
-- audit trace and the notes of a decision, and the explorer's witnesses and digest, which are texts for a
-- reader; the reason that the policy engine gives for a rail; the transactions and the listings of the
-- store; the queue; the model that proposes, the learner and the executor, whose answers a worker is
-- given, like the parsing of JSON; the loops of a worker and its reclaiming of messages. The front
-- ends and the offline tooling are outside the development.
pub mod Base
pub mod Text
pub mod Domain
pub mod Gatekeeper
pub mod Attest
pub mod Audit
pub mod Breaker
pub mod Modelcheck
pub mod Outbox
pub mod Policy
pub mod Store
pub mod Worker
pub mod Witnesses
