-- ===== src/Facade/GivenKeys.antt =====
-- The keys that two calls of one protected function give to the runtime.
use agent_actum.Base.{
  String, text_eq, ◌≡◌, refl, ap, subst, ◌∙◌, sym, if◌then◌else◌, true, Option, none, some, All,
  arith, inl, inr, Option-cases,
}
use agent_actum.Model.Json.{JsonObject, get}
use agent_actum.Model.Exec.{Result, ok, err}
use agent_actum.Model.Host.{Host, checked, short_text}
use agent_actum.Idempotency.Keys.{create_key}
use agent_actum.Idempotency.Keys.Laws.{create_key_agree}
use agent_actum.Execution.Models.{ExecutionResult}
use agent_actum.Execution.Runtime.Defs.{Runtime, World}
use agent_actum.Facade.Calls.{Executed}
use agent_actum.Facade.{Protection, key_for, key_fields, checked_key, keyed}

keyed-some :
    (r : Result String) (o : Option String)
    → keyed r ≡ ok o
    → (s : String) × (r ≡ ok s) × (o ≡ some s)
keyed-some (ok s) o e = (s, refl, ground arith)
keyed-some (err x) o e = cc

checked-accept :
    (h : Host) (k s : String) → checked h short_text k ≡ ok s → h.accept short_text k ≡ some s
checked-accept h k s e = elim (Option-cases (h.accept short_text k)) [
  | inl refused ↦ let never = rw (refused, checked) at e in cc
  | inr (t, accepted) ↦ let same = rw (accepted, checked) at e in ground arith
]

-- The key that the runtime is given, for the key that `create_key` has made: pydantic has accepted
-- it.
stored_key :
    (h : Host) (p : Protection) (arguments : JsonObject) (key stored : Option String)
    → p.contract.idempotency_key_required ≡ true
    → key_for p arguments ≡ ok key
    → checked_key h key ≡ ok stored
    → (k : String) × (s : String) × (stored ≡ some s) × (h.accept short_text k ≡ some s)
stored_key h p arguments key stored required made checked_ok =
    let made_key = create_key p.is_blank p.digest p.contract.name arguments (key_fields p) in
    let (k, _, is_k) =
      keyed-some made_key key
        (subst (λ b. (if b then keyed made_key else ok none) ≡ ok key) required made) in
    let (s, accepted, is_s) =
      keyed-some (checked h short_text k) stored (ap (checked_key h) (sym is_k) ∙ checked_ok) in
    (k, s, is_s, checked-accept h k s accepted)

key_for_agree :
    (p : Protection) (a b : JsonObject)
    → All (λ name. get name a ≡ get name b) (key_fields p)
    → key_for p a ≡ key_for p b
key_for_agree p a b agree =
    ap (λ r. if p.contract.idempotency_key_required then keyed r else ok none)
      (create_key_agree p.is_blank p.digest p.contract.name (key_fields p) a b agree)

-- Two calls that agree on the fields of the key give the runtime one key, if both reach it.
pub same_key :
    {L I : Type 0} (h : Host) (rt rt' : Runtime L I) (p : Protection)
    (arguments arguments' : JsonObject) (w u : World L I) (key key' : Option String)
    {a b : Result ExecutionResult × World L I}
    → p.contract.idempotency_key_required ≡ true
    → All (λ name. get name arguments ≡ get name arguments') (key_fields p)
    → key_for p arguments ≡ ok key
    → key_for p arguments' ≡ ok key'
    → (x : Executed h rt p arguments key w a) → (y : Executed h rt' p arguments' key' u b)
    → (s : String) × (x.action.idempotency_key ≡ some s)
      × (y.action.idempotency_key ≡ some s)
      × ((k : String) × (h.accept short_text k ≡ some s))
same_key h rt rt' p arguments arguments' w u key key' required agree made made' x y =
    let same : key ≡ key' =
      ground (arith, made, made', key_for_agree p arguments arguments' agree) in
    let (k, s, is_s, accepted) =
      stored_key h p arguments key x.action.idempotency_key required made x.stored in
    let same_stored : ok y.action.idempotency_key ≡ ok x.action.idempotency_key =
      sym y.stored ∙ (ap (checked_key h) (sym same) ∙ x.stored) in
    (s, is_s, ground (arith, same_stored, is_s), (k, accepted))
