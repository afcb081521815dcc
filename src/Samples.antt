-- ===== src/Samples.antt =====
-- Test data that the tests of several components share: a host, a contract, an action, a tool.
use agent_actum.Base.{◌+◌, Bool, true, false, some}
use agent_actum.Model.Enums.{stageable, low, critical}
use agent_actum.Model.Number.{pos}
use agent_actum.Model.Json.{Value, other, int, str, list, dict, nil, cons, end, field}
use agent_actum.Model.Host.{Host}
use agent_actum.Contracts.Models.{ToolSchema, ToolContract, ActionIntent}

-- Clocks that count, identifiers in sequence, and a pydantic that accepts every text.
abbrev pub host : Host
host = record {
  clock = λ n. n;
  utc_now = λ n. n;
  uuid4 = λ n. n + 100;
  uuid_text = λ _. "uuid";
  number_text = λ _. "number";
  accept = λ _ s. some s;
  json = λ _. true;
}

-- A pydantic that refuses objects of another type.
abbrev is_json : Value → Bool
is_json (other _) = false
is_json _ = true

abbrev pub strict_host : Host
strict_host = record host { json = is_json }

-- An object schema with one required integer.
abbrev pub amount_schema : ToolSchema
amount_schema = record {
  name = "payment.input";
  document = field "type" (str "object") (
      field "required" (list (cons (str "amount") nil)) (
        field "properties" (dict (field "amount" (dict (field "type" (str "integer") end)) end))
          end));
}

abbrev pub text_schema : ToolSchema
text_schema = record { name = "payment.output"; document = field "type" (str "string") end }

abbrev pub contract : ToolContract
contract = record {
  contract_id = 7;
  name = "pay";
  version = "1";
  description = "Pays an amount.";
  effect_type = stageable;
  risk_level = low;
  input_schema = amount_schema;
  output_schema = text_schema;
  idempotency_key_required = true;
}

abbrev pub risky_contract : ToolContract
risky_contract = record contract { risk_level = critical }

abbrev pub action : ActionIntent
action = record {
  intent_id = 1;
  contract_id = 7;
  tool_name = "pay";
  contract_version = "1";
  requester_id = "agent";
  arguments = field "amount" (int (pos 5)) end;
  created_at = 0;
  idempotency_key = some "k1";
  context = end;
}
