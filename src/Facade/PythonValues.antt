-- ===== src/Facade/PythonValues.antt =====
-- The arguments of a protected call, as Python objects.
use agent_actum.Base.{Bool, String, List}
use agent_actum.Model.Number.{ℤ, Float}
use agent_actum.Model.Exec.{Result}

-- An argument as the caller gives it. A dict may have keys of any type: of each key there is what
-- `str` returns for it or raises, which for a text is the text itself. `other` is an object of
-- another type.
mutual
  pub data Object : Type 0 where
    null other : Object
    bool : Bool → Object
    int : ℤ → Object
    float : Float → Object
    str : String → Object
    list : Objects → Object
    dict : Entries → Object

  pub data Objects : Type 0 where
    nil : Objects
    cons : Object → Objects → Objects

  pub data Entries : Type 0 where
    end : Entries
    entry : Result String → Object → Entries → Entries

-- What `inspect` binds for a call: the parameters and their arguments.
abbrev pub BoundArguments : Type 0
BoundArguments = List (String × Object)
