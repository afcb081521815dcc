-- ===== src/Model/Host.antt =====
-- The boundary to what is not in the repository: the clock and `uuid4`, and pydantic, which
-- validates the models. _model.py declares the constraints; how pydantic applies them is a
-- parameter of the development.
use agent_actum.Base.{ℕ, suc, String, Bool, true, false, Option, none, some}
use agent_actum.Model.Json.{Value}
use agent_actum.Model.Exec.{validation, Result, ok, err, Exec}

-- `StringConstraints(…)`; `limits` are the least and the greatest length.
pub record TextRule : Type 0 where
  pub strip_whitespace : Bool
  pub limits : Option (ℕ × ℕ)
  pub pattern : Option String

abbrev pub domain_name : TextRule
domain_name = record {
  strip_whitespace = true;
  limits = some (1, 128);
  pattern = some "^[a-z][a-z0-9_.-]*$";
}

abbrev pub short_text : TextRule
short_text = record { strip_whitespace = true; limits = some (1, 256); pattern = none }

abbrev pub long_text : TextRule
long_text = record { strip_whitespace = true; limits = some (1, 4096); pattern = none }

abbrev pub intent_fingerprint : TextRule
intent_fingerprint = record {
  strip_whitespace = false;
  limits = none;
  pattern = some "^[0-9a-f]{64}$";
}

-- What the program takes from its host. The answers of the clocks and of `uuid4` are read by the
-- number of answers that were drawn before. `accept rule s` is the text that pydantic stores for
-- `s` under a rule, if it accepts it; `json` tells whether it accepts an object as a `JsonValue`.
pub record Host : Type 0 where
  pub clock : ℕ → ℕ
  pub utc_now : ℕ → ℕ
  pub uuid4 : ℕ → ℕ
  pub uuid_text : ℕ → String
  pub number_text : Value → String
  pub accept : TextRule → String → Option String
  pub json : Value → Bool

-- A draw from a clock or from `uuid4`; the state counts the draws.
unfoldable pub draw : {A : Type 0} → (ℕ → A) → Exec ℕ A
draw answers n = (ok (answers n), suc n)

-- The field of a model: the stored text, or pydantic's `ValidationError`.
abbrev pub checked : Host → TextRule → String → Result String
checked h rule s = elim (h.accept rule s) [ none ↦ err (validation s) | some t ↦ ok t ]
