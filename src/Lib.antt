-- ===== src/Lib.antt =====
-- PEAS: an event engine and the market-data acquisition that feeds it, in TypeScript.
--
-- The engine keeps an append-only log of events (src/core/event.ts, src/adapters/memory). Each
-- event carries the digest of its content and a digest that links it to its predecessor. Digests
-- are SHA-256 over length-prefixed parts (src/core/hash.ts) of the canonical text of a JSON value
-- (src/core/json.ts). A processor (src/core/processor.ts) runs a reducer over the log, event by
-- event, and commits to a store, with one transaction for each event, the cursor of its run, the
-- aggregate and the outputs. An acquisition of market data (src/adapters/market-acquisition) is a
-- state machine over events: it dispatches attempts within a rolling quota and a deadline,
-- retries transient failures, admits verified pages to a chain of digests, and continues from
-- page to page with continuation tokens.
--
-- Which file models which part:
--   Prelude             shared notation; Tests has Boolean tests on numbers, Lists lists measured by
--                       native numbers, Results calls that may throw, Texts texts and their shapes.
--   Json                src/core/json.ts. Defs: JsonValue. Encoding: encode, canonicalJson.
--                       Limits: assertJsonWithinLimits, its counters passed from visit to visit.
--                       Bytes and Accounting: the accounting of bytes against the canonical text.
--   Digest              src/core/hash.ts, with framedHash of journal.ts. Framing and Binding: what a
--                       digest commits to.
--   Acquisition.Limits  src/adapters/market-acquisition/contracts.ts.
--   Acquisition.Quota   quota.ts there: evaluateRollingQuota, validateDeadlineProof and
--                       retryFitsAcquisitionDeadline. Sorting, Window, Admission, Waiting: proofs.
--   Acquisition.Retry   retry.ts there: decideRetry, parseRetryAfterMs. Header, Decision: proofs.
--   Acquisition.Identity  journal.ts there, lines 102 to 342: the identities; Chain: derivePageChainHash
--                       and planPageAdmission.
--   Acquisition.Machine state-machine.ts there. The states, events, snapshot and ACQUISITION_TRANSITIONS;
--                       Validate: validateSnapshot; Step: deriveNext, one function for each case;
--                       Run: deriveAcquisitionTransition and AcquisitionStateMachine, whose state is the
--                       snapshot; Run.Checkpoint: checkpointForEvent. Facts, Frame, Valid, Graph: what an
--                       accepted event implies; Termination and Runs: what holds over all runs.
--   Events              src/core/event.ts. Digests: the digests of an event, verifyStoredEvent and
--                       verifyEventPage. Log: InMemoryEventLog and CapturedEventLog, whose state is
--                       passed and returned. Chain, Delivery, Paging, Evidence: proofs.
--   Clock               src/core/clock.ts: ManualClock.
--   Processor           src/core/processor.ts: its records. Schemas: the tests of its schemas. Hashes: its
--                       JSON and hashes. Validate and Verify: validateProcessingCommit,
--                       verifyProcessingCommit and verifyProcessingTransition, with the validations of runs,
--                       cursors, checkpoints and outputs. Materialize: #materialize. Process:
--                       DeterministicProcessor over an interface of stores; Process.Run: process,
--                       processAvailable and snapshot; Facts, Available, Verified, Again, Redelivery: proofs.
--                       Store: commit and ensureRun of src/adapters/memory/processing-store.ts; Store.Reads: its reads;
--                       Store.Adapter: it as the interface; the other children: proofs.
--   Study               src/study/market-reference/algorithms.ts: bootstrapPoolIndex.
--   Fixtures            the platform of the tests, which stand in modules named Tests, with the data of the
--                       processor's in Processor.Samples.
--
-- The model. A throw is an `err` with a message, from which the paths, names and values that the
-- source prints into it are left out. A number that the code requires to be a non-negative safe
-- integer is a native natural number, and the upper bound is tested as in the code; JSON numbers
-- are integers other than -0. A text is a sequence of Unicode scalar values. A run of the
-- acquisition machine is a list of events, each with a Boolean that says whether the persistence
-- of its plan succeeds; the callback itself is input and output. SHA-256, UTF-8 and
-- `JSON.stringify` of strings and numbers are the runtime's, the fields of `Digest.Platform`;
-- where a theorem relies on UTF-8 or on quoting, it says so by a hypothesis
-- (`Digest.Binding.EncodesFaithfully`, `Json.Bytes.IsUtf8`, `Events.Evidence.Links.Delimits`).
-- The loops over pages (processAvailable, snapshot, #verifyProcessedSuffix) are on fuel:
-- processAvailable has one more than the log has events, which is enough since each page but
-- the last moves the cursor; snapshot's fuel is an argument, and for its loop over outputs more
-- than the number of outputs is enough; #verifyProcessedSuffix has the cursor's position, since
-- each page moves its position. All other recursion is on lists, values and numbers. The
-- reducer of a processor and the event log that a store reads are arguments. The budgets (48
-- attempts, 3 for a page, 16 pages, five minutes, 30 attempts in 60 seconds) are those of
-- MARKET_ACQUISITION_LIMITS.
--
-- Not modelled: the journal entries (journal.ts from line 344), the domain reducers, the rest of
-- the study, the providers, and whatever reads files, databases and the network.
pub mod Prelude
pub mod Json
pub mod Digest
pub mod Acquisition
pub mod Events
pub mod Clock
pub mod Processor
pub mod Study
pub mod Fixtures
