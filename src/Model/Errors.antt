-- ===== src/Model/Errors.antt =====
-- The texts of the program's own exceptions: what `str` of each gives.
use Prim.Native.String.{◌++◌ as join}
use agent_actum.Base.{String}
use agent_actum.Model.Enums.{TransactionStatus, status_text}

-- contracts/registry.py.
abbrev pub duplicate_tool_text : String → String
duplicate_tool_text tool_name = join "tool is already registered: " tool_name

abbrev pub unknown_tool_text : String → String
unknown_tool_text tool_name = join "tool is not registered: " tool_name

-- idempotency/keys.py and idempotency/backend.py.
abbrev pub missing_field_text : String → String
missing_field_text name = join "idempotency field is missing from arguments: " name

abbrev pub not_owner_text : String → String
not_owner_text key = join "idempotency record is owned by another token: " key

-- outbox/backend.py; the identifier as `uuid_text` writes it.
abbrev pub unknown_operation_text : String → String
unknown_operation_text operation_id = join "unknown outbox operation: " operation_id

-- transactions/models.py.
abbrev pub illegal_transition_text : TransactionStatus → TransactionStatus → String
illegal_transition_text current_status requested_status =
    join "illegal transaction transition: "
      (join (status_text current_status) (join " -> " (status_text requested_status)))
