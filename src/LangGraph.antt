-- ===== src/LangGraph.antt =====
-- langgraph.py: `LangGraphAdapter`. `model_dump` is pydantic's; what `import_module` finds, and what
-- the `ToolNode` of the package makes of the tools, are parameters.
pub mod Served
mod Tests
use agent_actum.Base.{
  String, text_eq, ◌==◌, if◌then◌else◌, Option, none, some, List, [], ◌∷◌, Bool, true, false,
}
use agent_actum.Facade.PythonValues.{BoundArguments}
use agent_actum.Model.Json.{Value, Fields}
use agent_actum.Model.Exec.{Result, ok, err, Exec, value_error, integration, Error}
use agent_actum.Model.Host.{Host}
use agent_actum.Execution.Models.{ExecutionResult}
use agent_actum.Execution.Runtime.Defs.{Handler}
use agent_actum.Facade.{Protection}
use agent_actum.Facade.Protect.{AgentActum, FacadeState, Protected, protect}

pub data LangGraphReturnMode : Type 0 where
  result output : LangGraphReturnMode

unfoldable pub serialize_result :
    (ExecutionResult → Value) → ExecutionResult → LangGraphReturnMode → Value
serialize_result model_dump r result = model_dump r
serialize_result model_dump r output = if r.succeeded then r.output else model_dump r

-- The test of `return_mode`, which may be any text at run time.
abbrev pub return_mode : String → Result LangGraphReturnMode
return_mode s =
    if s == "result"
    then ok result
    else if s == "output"
    then ok output
    else err (value_error "return_mode must be 'result' or 'output'")

-- A tool for LangGraph, called with what `inspect` binds.
abbrev pub Tool : Type 0 → Type 0 → Type 0
Tool L I = Result BoundArguments → Exec (FacadeState L I) Value

abbrev pub serialized :
    (ExecutionResult → Value) → LangGraphReturnMode → Result ExecutionResult → Result Value
serialized model_dump mode (ok r) = ok (serialize_result model_dump r mode)
serialized model_dump mode (err e) = err e

-- What `import_module("langgraph.prebuilt")` comes to: a module, with or without a `ToolNode`, an
-- `ImportError`, or another exception.
pub data Import (Factory : Type 0) : Type 0 where
  imported : Option Factory → Import Factory
  import_error : Import Factory
  broken : Error → Import Factory

module _ {L I : Type 0} where
  -- The wrapper around a protected function.
  unfoldable pub tool_wrapper : AgentActum L I → LangGraphReturnMode → Protected L I → Tool L I
  tool_wrapper actum mode protected bound s =
      let (r, t) = protected bound s in (serialized actum.model_dump mode r, t)

  abbrev pub tool_of :
      AgentActum L I → LangGraphReturnMode → Result (Protected L I) → Result (Tool L I)
  tool_of actum mode (ok protected) = ok (tool_wrapper actum mode protected)
  tool_of actum mode (err e) = err e

  abbrev pub decorate_tool :
      Host
      → AgentActum L I
      → Protection
      → Handler
      → Result LangGraphReturnMode
      → Exec (FacadeState L I) (Tool L I)
  decorate_tool h actum p function (err e) s = (err e, s)
  decorate_tool h actum p function (ok mode) s =
      let (r, t) = protect h actum p function s in (tool_of actum mode r, t)

  -- `protect_tool`, applied to a function: an unknown mode raises before anything is registered.
  unfoldable pub protect_tool :
      Host → AgentActum L I → Protection → String → Handler → Exec (FacadeState L I) (Tool L I)
  protect_tool h actum p mode function s = decorate_tool h actum p function (return_mode mode) s

  -- `tool_node`, over the constructor of the package, if it has one.
  unfoldable pub tool_node :
      {Node : Type 0} → Import (List (Tool L I) → Result Node) → List (Tool L I) → Result Node
  tool_node import_error tools =
      err (integration "Install the optional extra with: pip install \"agentactum[langgraph]\"")
  tool_node (broken e) tools = err e
  tool_node (imported none) tools =
      err (integration "Installed langgraph package does not expose langgraph.prebuilt.ToolNode")
  tool_node (imported (some factory)) tools = factory tools
