-- ===== src/Lib.antt =====
-- AgentActum (src/agentactum): a runtime that lets the tool calls of an agent through safety gates.
--
-- The parts and how they interact. A tool is registered with a contract
-- (contracts/registry.py). SingleActionRuntime.execute (execution/runtime.py) takes an action,
-- finds the tool, checks that the action is bound to the contract, validates the arguments
-- against the input schema, asks the policy engine (policies/engine.py) and, where the decision
-- wants it, an approval checker, claims the action's idempotency key
-- (idempotency/backend.py), runs the preconditions, invokes the handler, validates the output,
-- runs the postconditions and completes the claim; every stage writes to the audit ledger
-- (ledger/backend.py). Beside it stand the transactions (transactions/models.py), the outbox
-- that stages irreversible operations behind a commit (outbox/backend.py) and the
-- coordinator that compensates completed effects (compensation/coordinator.py).
--
-- Which file models which part (paths from src/agentactum):
--   Model: Enums is enums.py; Json and Number are Python's values and numbers; Exec is the
--     monad of methods that change an object and may raise, in which what was written
--     before a raise stays written; Host is the boundary, with the text rules of _model.py;
--     Errors are the texts of the program's exceptions.
--   Contracts: Models is contracts/models.py, Registry is ToolRegistry of
--     contracts/registry.py (register, get, contains, list_contracts, __init__).
--   Policies: Models is policies/models.py; Engine is PolicyEngine.evaluate with _compose,
--     _decision, _allow and _max_risk of policies/engine.py; Rules are the four policies.
--   Ledger: Models is ledger/models.py and the protocol Ledger; Memory is InMemoryLedger.
--   Idempotency: Models is idempotency/models.py and the protocol; Memory is
--     InMemoryIdempotencyBackend (claim, get_record, mark_completed); Keys is create_key of
--     idempotency/keys.py.
--   Execution: Models is execution/models.py; Schema is _validate_against_schema and what
--     it calls in execution/runtime.py; Runtime/Defs has the components of a
--     SingleActionRuntime and its helpers, Runtime/Stages and Runtime/Invocation have execute,
--     up to the claim of the key and behind it, one function for each stage, each ending in
--     the next one as the code does. Runtime/Paths says what a
--     statement about runs needs for each kind of step, and its children carry it from the
--     steps to the whole run; the statements about records, invocations, results and events
--     are instances.
--   Transactions: Models is transactions/models.py (the table of legal transitions,
--     validate_state, transition); Runs are sequences of transitions.
--   Facade: the binding of arguments and the wrapper of a protected function of facade.py, over
--     Python objects whose dicts may have keys of any type (Facade/PythonValues);
--     Facade/Protect is AgentActum with __init__ and protect; Facade/Calls says how far a
--     call gets, Facade/Kept what sequences of calls keep. LangGraph: LangGraphAdapter
--     (protect_tool, tool_node) and _serialize_result of langgraph.py.
--   Approvals: Models is approvals/models.py.
--   Outbox: Models is outbox/models.py; Memory is InMemoryOutboxBackend of
--     outbox/backend.py (stage, release, release_all, list_operations); Backend is the
--     protocol; Steps are sequences of its calls.
--   Compensation: Models is compensation/models.py and the data of
--     compensation/coordinator.py; Coordinator is CompensationCoordinator and
--     _summarize_status.
-- The other children of these modules hold the proofs, and the Tests modules concrete runs.
--
-- What is a parameter. Host stands for the clocks and uuid4, as streams that are read by the
-- number of earlier draws (nothing is assumed of them except where a theorem says that uuid4
-- does not repeat itself), and for pydantic: accept is the text that it stores for a text
-- under a rule, json whether it accepts an object as a JsonValue. Runtime takes model_dump and
-- model_validate_json; create_key the digest of a canonical JSON text and the test of a blank
-- text. Policies, handlers, checks, approval checkers and compensators are
-- functions that return or raise; handlers, runtime checks and compensators may depend on the
-- invocations before theirs, policies and approval checkers only on their arguments; none of
-- them changes the ledger, the backend or the outbox itself.
--
-- Conventions. UUIDs and aware datetimes are numbers. A lock makes the methods of an object run
-- one after another, so an interleaving is a sequence of calls (Reach); of a run among others,
-- Runtime/Interleavings lets these call the backend before each call of the run. An invocation of a
-- handler is recorded in the state as the effect on the outside world. A finite float is its
-- multiple of 2^-1074, so that comparisons with an int are exact. A ledger or a backend that is
-- passed to the facade is a pair of its methods and its state. All loops are structural
-- recursions over lists or values; there is no fuel.
--
-- What is not modelled: CPython's limits on nesting and on the digits of an int; exceptions
-- that are no Exception, such as KeyboardInterrupt; the type tests that hold by typing (a
-- handler is callable, a policy an object with evaluate); dicts with keys that are no texts
-- among what handlers and compensators return (only the arguments of a protected call may hold
-- them); inspect, whose bound arguments are a parameter of the facade, and langgraph, whose
-- import is one of the adapter; the names that the packages re-export.
pub mod Base
pub mod Model
pub mod Contracts
pub mod Policies
pub mod Ledger
pub mod Idempotency
pub mod Execution
pub mod Transactions
pub mod Approvals
pub mod Facade
pub mod LangGraph
pub mod Outbox
pub mod Compensation
mod Samples
