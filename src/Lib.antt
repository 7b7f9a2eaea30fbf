-- ===== src/Lib.antt =====
-- BadgerBots Code Studio: students build Sheep City programs of blocks, the studio validates and
-- compiles them to an instruction graph, and a host executes the graph in a Minecraft world.
--
-- The parts and their files:
--
-- * packages/program-model (src/types.ts, schema.ts, validate.ts, serialize.ts, starter.ts,
--   migrate.ts) is ProgramModel. Types has the programs of every schema version and the
--   diagnostics; NodeId the pattern of identifiers; Schema what the schema still checks of a typed
--   program, its issues in order (program_issues); Validate the function validateProgram, whose
--   local variables are the record Validation and whose nested functions register and
--   visitStatement are functions on it; Serialize the function normalizeProgram; Starter the two
--   programs of the editor. WellFormed says without the validator when a program may be run. The
--   modules below them hold the proofs.
-- * packages/runtime-protocol (src/instruction-graph.ts, interpreter.ts, envelope.ts) is
--   RuntimeProtocol. InstructionGraph has the graph and compileInstructionGraph, which calls the
--   validator and the canonical form, and ReadBack the way back from a graph; Address the two kinds of map key; Scopes the class
--   ExecutionScopeRegistry; Execution the private methods of AtomicProgramRuntime that execute an
--   event within its budget; Runtime assertGraph and the public methods of AtomicProgramRuntime,
--   whose state is its map of active programs and the scope registry it was given; Envelope the
--   class MemoryReplayLedger and verifyRuntimeEnvelope.
-- * packages/world-manager (src/leases.ts, capacity.ts) is WorldManager. Leases has the state and
--   the methods of BaseLeaseManager, to which createLease is an argument; Instances has
--   createLease of the two managers and the bounds of an instance; Decimal the text of a padded
--   number. LeaseOperation lists the calls that change a manager. Capacity has the decisions of a
--   benchmark report, for given metrics, and the CapacityController, whose canAcceptLease is the
--   gate that allocate asks.
-- * packages/control-plane/src/service.ts (with types.ts, memory-store.ts and
--   packages/shared-types) is ControlPlane. Store has the tables, Action the call of a method,
--   Access the private methods that find and authorize, Organizations, Campers, Programs,
--   Classroom, Roster and Retention the public methods, each under its name (bootstrapOwner is
--   check_bootstrap, then finish_bootstrap with the answer of the auth service; provisionAssistant
--   likewise). Dates and Texts have the tests on input texts. Operations is the type of calls and
--   their effect. Step is the abstract specification: a relation on the sessions, the workspaces,
--   the versions and the two logs, with a constructor for each kind of change; Step/Traces and
--   Step/Kept are the rules to show that an action follows it, Step/Refines, Methods, Sessions,
--   Purge, Writes and Calls go through the methods, and Aging, Life, Safe, History, Unique and
--   Linear argue on the relation alone. Limits, Conditions, Authorized, Codes and Due are about
--   the limit on joins, the test of an actor, the join code and the retention job; Mutations, Denied and Retry
--   about a repeated save; Ensures, Erased, Purged and Purgeable about the purge of a session. It uses the migration, the validator
--   and the starter program of ProgramModel.
-- * Prelude has what the parts share: Boolean tests and lists on native numbers, integers,
--   doubles, association lists for maps, a stable sort and the joined key. Tests applies the
--   theorems at concrete inputs.
--
-- How the code is modelled:
--
-- * A method is a function from its arguments and the state to the new state and the result; an
--   exception is a value (Option, Result, a Failure or a flag). A Map is an association list in
--   insertion order; a Set is a list without duplicates in insertion order, or, where the code
--   only asks for membership, the list of what was added. Identifiers are native strings.
-- * A double is an integer over a power of two, so a comparison is exact; 0.1 is the double that
--   the literal denotes. Quantities are integers; safe integers are those that
--   Number.isSafeInteger accepts, and a number that it may refuse is an option. A quantity may be
--   negative in a graph that was not compiled. Clock readings are
--   whole milliseconds.
-- * The Minecraft adapter and the clock are an Environment: it answers each read from the calls
--   made so far, says which call throws and gives the readings in order. All calls are logged, so
--   a theorem can speak of them. Whether the cancel of a resource throws is a parameter (returns),
--   and so is the verification of a signature. A callback that calls back into the registry is
--   outside the model.
-- * The dependencies of ControlPlaneService are a record (Deps): the readings of the clock and the
--   generated identifiers, codes and tokens in order, the digest, the tables of letters and of
--   upper and lower case. A date is its three fields, a time that the code stores as an ISO text
--   is the reading. A found object that the code changes in place is changed in its table, at the
--   place where the same search finds it. What was written before an exception stays written.
-- * Every loop of the code is structural recursion here, on the list or the tree that it walks, so
--   no fuel is needed; only the search for a free join code, which may draw codes for ever, tries
--   one code more than there are sessions.
-- * A field with one possible value and the texts of messages and suggestions are left out.
--
-- Not modelled: the reading of untyped JSON by the zod package, whose result the typed programs
-- are; the texts written by JSON.stringify; the validation of benchmark samples and their
-- percentiles; node-auth.ts, which only calls node:crypto; the Java text of programs
-- (packages/java-dsl), the range of recoveryDays that the constructor checks, the editor
-- (packages/block-editor), the Supabase client, the curriculum documents, the applications, the
-- Minecraft plugin and the database.
pub mod Prelude
pub mod ProgramModel
pub mod RuntimeProtocol
pub mod WorldManager
pub mod ControlPlane
pub mod Tests
