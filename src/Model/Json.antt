-- ===== src/Model/Json.antt =====
-- Values as the program sees them: what `JsonValue` holds, and any other Python object that a tool
-- may return. `JsonObject` is a dict with text keys, in insertion order.
use agent_actum.Base.{
  Bool, true, ◌&&◌, String, text_eq, ◌==◌, if◌then◌else◌, Option, none, some, List, [], ◌∷◌,
  is_some,
}
use agent_actum.Model.Number.{ℤ, Float, Number, is_finite}

-- `other dumps` is an object of another type, such as a set or a tuple; `dumps` says whether
-- `json.dumps` accepts it, as it does a tuple.
mutual
  pub data Value : Type 0 where
    null : Value
    bool : Bool → Value
    int : ℤ → Value
    float : Float → Value
    str : String → Value
    list : Items → Value
    dict : Fields → Value
    other : Bool → Value

  pub data Items : Type 0 where
    nil : Items
    cons : Value → Items → Items

  pub data Fields : Type 0 where
    end : Fields
    field : String → Value → Fields → Fields

abbrev pub JsonObject : Type 0
JsonObject = Fields

-- `o.get(k)`, and `k in o`.
abbrev pub get : String → Fields → Option Value
get k end = none
get k (field j v rest) = if j == k then some v else get k rest

abbrev pub has : String → Fields → Bool
has k o = is_some (get k o)

-- `isinstance(v, int | float) and not isinstance(v, bool)`.
abbrev pub as_number : Value → Option Number
as_number (int n) = some (Number.int n)
as_number (float f) = some (Number.float f)
as_number _ = none

-- The texts of a list value that holds nothing else.
abbrev cons_text : Value → Option (List String) → Option (List String)
cons_text (str s) (some rest) = some (s ∷ rest)
cons_text _ _ = none

abbrev pub texts : Items → Option (List String)
texts nil = some []
texts (cons v rest) = cons_text v (texts rest)

-- The texts of a list value, the other items left out.
abbrev keep_text : Value → List String → List String
keep_text (str s) rest = s ∷ rest
keep_text _ rest = rest

abbrev pub text_items : Items → List String
text_items nil = []
text_items (cons v rest) = keep_text v (text_items rest)

-- Whether `json.dumps(value, allow_nan=False)` returns. The limits that CPython puts on the depth
-- of a value and on the digits of an `int` are not modelled.
unfoldable mutual
  pub dumps : Value → Bool
  dumps null = true
  dumps (bool _) = true
  dumps (int _) = true
  dumps (float f) = is_finite f
  dumps (str _) = true
  dumps (list xs) = dumps_items xs
  dumps (dict o) = dumps_fields o
  dumps (other b) = b

  pub dumps_items : Items → Bool
  dumps_items nil = true
  dumps_items (cons v rest) = dumps v && dumps_items rest

  pub dumps_fields : Fields → Bool
  dumps_fields end = true
  dumps_fields (field k v rest) = dumps v && dumps_fields rest
