-- ===== src/Contracts/Registry/Tests.antt =====
-- Tests of the registry, and its theorem at concrete inputs.
use agent_actum.Base.{◌≡◌, refl, [], ◌∷◌, String}
use agent_actum.Samples.{contract, risky_contract}
use agent_actum.Model.Exec.{ok, err, duplicate_tool, unknown_tool}
use agent_actum.Contracts.Registry.{ToolRegistry, register, get}
use agent_actum.Contracts.Registry.Laws.{Registered, register-Registered}

abbrev none_yet : ToolRegistry String
none_yet = []

abbrev one_tool : ToolRegistry String
one_tool = ("pay", record { contract = contract; handler = "handler" }) ∷ []

register_first :
    register contract "handler" none_yet
    ≡ (ok (record { contract = contract; handler = "handler" }), one_tool)
unfolding register
register_first = refl

register_twice : register risky_contract "other" one_tool ≡ (err (duplicate_tool "pay"), one_tool)
unfolding register
register_twice = refl

get_unknown : get "refund" one_tool ≡ err (unknown_tool "refund")
unfolding get
get_unknown = refl

register-Registered_example :
    Registered
      (record contract { name = "refund" })
      "other"
      one_tool
      (register (record contract { name = "refund" }) "other" one_tool)
register-Registered_example =
    register-Registered (record contract { name = "refund" }) "other" one_tool
