-- ===== src/Facade/DictEntries.antt =====
-- The conversion of a dict, key by key.
use agent_actum.Base.{
  String, text_eq, text_iff, ◌==◌, ◌≡◌, ◌≢◌, refl, sym, ap, ◌∙◌, subst, inl, inr, Bool, true, false,
  if◌then◌else◌, Option, none, some, Bool-cases,
}
use agent_actum.Model.Json.{Value, Fields, end, field, get}
use agent_actum.Model.Exec.{Result, ok, err, Result-cases, ok_injective}
use agent_actum.Facade.PythonValues.{Object, Entries}
use agent_actum.Facade.{put, as_json_value, as_json_fields}

-- A dict after `o[k] = v`.
get-put_self : (k : String) (v : Value) (o : Fields) → get k (put k v o) ≡ some v
unfolding put
get-put_self k v end = let same : (k == k) ≡ true = (text_iff k k).1 refl in rw same refl
get-put_self k v (field j u rest) = elim (Bool-cases (j == k)) [
  | inl same ↦ rw (same, get) (rw same refl)
  | inr differ ↦ rw (differ, get) (rw differ (get-put_self k v rest))
]

get-put_other : (k j : String) (v : Value) (o : Fields) → j ≢ k → get k (put j v o) ≡ get k o
unfolding put
get-put_other k j v end other = elim (Bool-cases (j == k)) [
  | inl same ↦ absurd (other ((text_iff j k).0 same))
  | inr differ ↦ rw differ refl
]
get-put_other k j v (field i u rest) other = elim (Bool-cases (i == j)) [
  | inl same ↦ elim (Bool-cases (i == k)) [
    | inl never ↦ absurd (other (sym ((text_iff i j).0 same) ∙ (text_iff i k).0 never))
    | inr differ ↦ rw (same, get) (rw differ refl)
  ]
  | inr differ ↦
      rw (differ, get) (ap (λ x. if i == k then some u else x) (get-put_other k j v rest other))
]

-- The value of the last entry whose key is this text.
abbrev is_key : Result String → String → Bool
is_key (ok j) k = j == k
is_key (err _) k = false

abbrev or_before : Option Object → Option Object → Option Object
or_before (some v) before = some v
or_before none before = before

abbrev pub last_value : String → Entries → Option Object
last_value k Entries.end = none
last_value k (Entries.entry key v rest) =
    or_before (last_value k rest) (if is_key key k then some v else none)

module _ (name : String) where
  -- What a key has in a dict, after the entries and before them.
  abbrev pub Read : Option Object → Option Value → Option Value → Type 0
  Read none before after = after ≡ before
  Read (some v) before after = (u : Value) × (after ≡ some u) × (as_json_value name v ≡ ok u)

  Read-then :
      (first second : Option Object) (a b c : Option Value)
      → Read first a b
      → Read second b c
      → Read (or_before second first) a c
  Read-then first (some v) a b c p q = q
  Read-then none none a b c p q = q ∙ p
  Read-then (some v) none a b c (u, shown, made) q = (u, q ∙ shown, made)

  put-Read :
      (k j : String) (v : Object) (u : Value) (o : Fields)
      → as_json_value name v ≡ ok u
      → Read (if j == k then some v else none) (get k o) (get k (put j u o))
  put-Read k j v u o made = elim (Bool-cases (j == k)) [
    | inl same ↦ rw same (
      u,
      subst (λ i. get k (put i u o) ≡ some u) (sym ((text_iff j k).0 same)) (get-put_self k u o),
      made,
    )
    | inr differ ↦ rw differ (
        get-put_other k j u o
          (λ e. let never : true ≡ false = sym ((text_iff j k).1 e) ∙ differ in cc never))
  ]

  pub fields-Read :
      (es : Entries) (o o' : Fields) (k : String)
      → as_json_fields name es o ≡ ok o'
      → Read (last_value k es) (get k o) (get k o')
  unfolding as_json_fields
  fields-Read Entries.end o o' k e = ap (get k) (sym (ok_injective e))
  fields-Read (Entries.entry (err x) v rest) o o' k e = cc
  fields-Read (Entries.entry (ok j) v rest) o o' k e = elim (Result-cases (as_json_value name v)) [
    | inr (x, raised) ↦ let never = rw raised at e in cc
    | inl (u, made) ↦
        Read-then (if j == k then some v else none) (last_value k rest) (get k o)
          (get k (put j u o)) (get k o') (put-Read k j v u o made)
          (fields-Read rest (put j u o) o' k (rw made at e))
  ]
