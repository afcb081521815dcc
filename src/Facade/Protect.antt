-- ===== src/Facade/Protect.antt =====
-- facade.py: `AgentActum`, its components and `protect`.
use agent_actum.Base.{ℕ, Option, or_else, List, []}
use agent_actum.Facade.PythonValues.{BoundArguments}
use agent_actum.Model.Json.{Value}
use agent_actum.Model.Exec.{Result, ok, err, Exec}
use agent_actum.Model.Host.{Host}
use agent_actum.Contracts.Registry.{RegisteredTool, ToolRegistry, register}
use agent_actum.Ledger.Models.{Ledger}
use agent_actum.Ledger.Memory.{InMemoryLedger, in_memory_ledger, empty as no_events}
use agent_actum.Idempotency.Models.{IdempotencyBackend}
use agent_actum.Idempotency.Memory.{
  InMemoryIdempotencyBackend, in_memory_backend, empty as no_records,
}
use agent_actum.Policies.Engine.{PolicyEngine}
use agent_actum.Execution.Models.{ExecutionResult}
use agent_actum.Execution.Runtime.Defs.{
  Handler, ApprovalChecker, RuntimeCheck, no_approval_checker, Runtime, World,
}
use agent_actum.Facade.{Protection, wrapper}

-- The components that a facade keeps, besides the registry, which `protect` changes; and pydantic's
-- functions for the result model.
pub record AgentActum (L I : Type 0) : Type 0 where
  pub policy_engine : PolicyEngine
  pub idempotency_backend : IdempotencyBackend I
  pub ledger : Ledger L
  pub approval_checker : Option ApprovalChecker
  pub preconditions : List RuntimeCheck
  pub postconditions : List RuntimeCheck
  pub model_dump : ExecutionResult → Value
  pub model_validate_json : Value → Result ExecutionResult

pub record FacadeState (L I : Type 0) : Type 0 where
  pub registry : ToolRegistry Handler
  pub world : World L I

-- A ledger or a backend as an object: its methods and its state.
pub record LedgerObject : Type 1 where
  pub Store : Type 0
  pub methods : Ledger Store
  pub state : Store

pub record BackendObject : Type 1 where
  pub Store : Type 0
  pub methods : IdempotencyBackend Store
  pub state : Store

-- The keyword arguments of `__init__`.
pub record CreateArguments : Type 1 where
  pub policy_engine : Option PolicyEngine
  pub registry : Option (ToolRegistry Handler)
  pub idempotency_backend : Option BackendObject
  pub ledger : Option LedgerObject
  pub approval_checker : Option ApprovalChecker
  pub preconditions : List RuntimeCheck
  pub postconditions : List RuntimeCheck
  pub clock : Option (ℕ → ℕ)

-- `_utc_now` in the place of a clock.
abbrev pub utc_host : Host → Host
utc_host h = record h { clock = h.utc_now }

-- `InMemoryLedger()` and `InMemoryIdempotencyBackend()`, whose clock is `_utc_now`.
abbrev pub default_ledger : Host → LedgerObject
default_ledger h = record {
  Store = InMemoryLedger;
  methods = in_memory_ledger (utc_host h);
  state = no_events;
}

abbrev pub default_backend : Host → BackendObject
default_backend h = record {
  Store = InMemoryIdempotencyBackend;
  methods = in_memory_backend (utc_host h);
  state = no_records;
}

-- A facade as `__init__` leaves it: the host with the facade's clock, the components, and the state.
pub record Created : Type 1 where
  pub host : Host
  pub L : Type 0
  pub I : Type 0
  pub actum : AgentActum L I
  pub state : FacadeState L I

-- `__init__`. That an object without a length is true, so that `or` keeps it, is Python's.
unfoldable pub create :
    Host → (ExecutionResult → Value) → (Value → Result ExecutionResult) → CreateArguments → Created
create h model_dump model_validate_json args =
    let ledger = or_else args.ledger (default_ledger h) in
    let backend = or_else args.idempotency_backend (default_backend h) in
    record {
      host = record h { clock = or_else args.clock h.utc_now };
      L = ledger.Store;
      I = backend.Store;
      actum = record {
        policy_engine = or_else args.policy_engine [];
        idempotency_backend = backend.methods;
        ledger = ledger.methods;
        approval_checker = args.approval_checker;
        preconditions = args.preconditions;
        postconditions = args.postconditions;
        model_dump = model_dump;
        model_validate_json = model_validate_json;
      };
      state = record {
        registry = or_else args.registry [];
        world = record {
          ledger = ledger.state;
          idempotency = backend.state;
          drawn = 0;
          calls = [];
        };
      };
    }

-- A protected function, called with what `inspect` binds.
abbrev pub Protected : Type 0 → Type 0 → Type 0
Protected L I = Result BoundArguments → Exec (FacadeState L I) ExecutionResult

module _ {L I : Type 0} where
  -- The runtime that a call makes of the facade's components.
  abbrev pub runtime_of : AgentActum L I → ToolRegistry Handler → Runtime L I
  runtime_of actum registry = record {
    registry = registry;
    policies = actum.policy_engine;
    ledger = actum.ledger;
    idempotency = actum.idempotency_backend;
    approval_checker = or_else actum.approval_checker no_approval_checker;
    preconditions = actum.preconditions;
    postconditions = actum.postconditions;
    model_dump = actum.model_dump;
    model_validate_json = actum.model_validate_json;
  }

  -- The wrapper, over the registry as it is at the call.
  unfoldable pub call_protected : Host → AgentActum L I → Protection → Protected L I
  call_protected h actum p bound s =
      let (r, w) = wrapper h (runtime_of actum s.registry) p bound s.world in
      (r, record s { world = w })

  abbrev pub decorated :
      Host → AgentActum L I → Protection → Result (RegisteredTool Handler) → Result (Protected L I)
  decorated h actum p (ok _) = ok (call_protected h actum p)
  decorated h actum p (err e) = err e

  -- `protect`, applied to a function: the function is registered, and the wrapper is returned.
  unfoldable pub protect :
      Host → AgentActum L I → Protection → Handler → Exec (FacadeState L I) (Protected L I)
  protect h actum p function s =
      let (r, registry) = register p.contract function s.registry in
      (decorated h actum p r, record s { registry = registry })
