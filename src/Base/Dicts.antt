-- ===== src/Base/Dicts.antt =====
-- A Python dict in insertion order, with texts or identifiers for keys.
use mathlib.Core.Path.{◌≡◌, refl}
use mathlib.Core.Logic.{◌≢◌}
use mathlib.Core.Bool.{Bool}
use mathlib.Core.Option.{Option, none, some}
use mathlib.Core.List.{List, [], ◌∷◌, ◌++◌}
use native.Mathlib.Omega.{arith}
use agent_actum.Base.Tests.{Eq, ◌==◌, if◌then◌else◌, is_some}

abbrev pub Dict {ℓ κ} : Type ℓ → Type κ → Type (ℓ ⊔ κ)
Dict K V = List (K × V)

module _ {ℓ κ} {K : Type ℓ} {V : Type κ} ⦃e : Eq K⦄ where
  -- `d.get(k)`
  abbrev pub lookup : K → Dict K V → Option V
  lookup k [] = none
  lookup k ((j, v) ∷ d) = if j == k then some v else lookup k d

  -- `k in d`
  abbrev pub contains : K → Dict K V → Bool
  contains k d = is_some (lookup k d)

  -- `d[k] = v`: a known key keeps its place, a new one comes last.
  abbrev pub insert : K → V → Dict K V → Dict K V
  insert k v [] = (k, v) ∷ []
  insert k v ((j, w) ∷ d) = if j == k then (j, v) ∷ d else (j, w) ∷ insert k v d

  pub lookup-insert :
      (k j : K) (v : V) (d : Dict K V)
      → lookup j (insert k v d) ≡ (if k == j then some v else lookup j d)
  lookup-insert k j v [] = refl
  lookup-insert k j v ((i, w) ∷ d) =
      ground (arith, e.equal_iff k j, e.equal_iff i k, e.equal_iff i j, lookup-insert k j v d)

  pub lookup-insert_self : (k : K) (v : V) (d : Dict K V) → lookup k (insert k v d) ≡ some v
  lookup-insert_self k v d = ground (arith, lookup-insert k k v d, e.equal_iff k k)

  pub lookup-insert_ne :
      (k j : K) (v : V) (d : Dict K V) → k ≢ j → lookup j (insert k v d) ≡ lookup j d
  lookup-insert_ne k j v d h = ground (arith, lookup-insert k j v d, e.equal_iff k j)

  -- A new key is appended.
  pub insert_new :
      (k : K) (v : V) (d : Dict K V) → lookup k d ≡ none → insert k v d ≡ d ++ (k, v) ∷ []
  insert_new k v [] h = refl
  insert_new k v ((j, w) ∷ d) h = ground (arith, insert_new k v d)

-- `tuple(d.values())`
abbrev pub values {ℓ κ} : {K : Type ℓ} {V : Type κ} → Dict K V → List V
values [] = []
values ((_, v) ∷ d) = v ∷ values d
