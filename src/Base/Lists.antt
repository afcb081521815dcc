-- ===== src/Base/Lists.antt =====
-- Lists: length and tests over the native numbers and `Bool`, membership, distinctness.
use Prim.Native.Nat.{ℕ, suc, ◌+◌}
use mathlib.Core.Path.{◌≡◌}
use mathlib.Core.Logic.{◌⊎◌, inl, inr}
use mathlib.Core.Bool.{Bool, true, false, ◌&&◌, ◌||◌, not}
use mathlib.Core.List.{List, [], ◌∷◌, ◌++◌}
use native.Mathlib.Omega.{arith}
use agent_actum.Base.Tests.{Eq, ◌==◌, if◌then◌else◌, Bool-cases}

module _ {ℓ} {A : Type ℓ} where
  abbrev pub length : List A → ℕ
  length [] = 0
  length (x ∷ xs) = suc (length xs)

  abbrev pub is_empty : List A → Bool
  is_empty [] = true
  is_empty (_ ∷ _) = false

  -- `any(p(x) for x in xs)`
  abbrev pub any : (A → Bool) → List A → Bool
  any p [] = false
  any p (x ∷ xs) = p x || any p xs

  -- `all(p(x) for x in xs)`
  abbrev pub all : (A → Bool) → List A → Bool
  all p [] = true
  all p (x ∷ xs) = p x && all p xs

  -- `[x for x in xs if p(x)]`
  abbrev pub select : (A → Bool) → List A → List A
  select p [] = []
  select p (x ∷ xs) = let rest = select p xs in if p x then x ∷ rest else rest

  -- `P` holds of every element.
  abbrev pub All {κ} : (A → Type κ) → List A → Type κ
  All P [] = Unit
  All P (x ∷ xs) = P x × All P xs

-- Membership by recursion, with its place kept.
abbrev pub In : {A : Type 0} → A → List A → Type 0
In a [] = ⊥
In a (x ∷ xs) = (a ≡ x) ⊎ In a xs

module _ {ℓ} {A : Type ℓ} where
  pub length-append : (xs ys : List A) → length (xs ++ ys) ≡ length xs + length ys
  length-append [] ys = omega arith
  length-append (x ∷ xs) ys = omega (arith, length-append xs ys)

module _ {A : Type 0} where
  pub any-In : (p : A → Bool) (xs : List A) (a : A) → In a xs → p a ≡ true → any p xs ≡ true
  any-In p [] a m h = elim m [ ]
  any-In p (x ∷ xs) a (inl e) h = ground arith
  any-In p (x ∷ xs) a (inr m) h = ground (arith, any-In p xs a m h)

  pub any-false-In : (p : A → Bool) (xs : List A) (a : A) → any p xs ≡ false → In a xs → p a ≡ false
  any-false-In p [] a h m = elim m [ ]
  any-false-In p (x ∷ xs) a h (inl e) = ground arith
  any-false-In p (x ∷ xs) a h (inr m) = any-false-In p xs a (ground arith) m

module _ {ℓ} {A : Type ℓ} ⦃e : Eq A⦄ where
  -- `a in xs`
  abbrev pub member : A → List A → Bool
  member a [] = false
  member a (x ∷ xs) = a == x || member a xs

  -- `len(xs) == len(set(xs))`
  abbrev pub distinct : List A → Bool
  distinct [] = true
  distinct (x ∷ xs) = not (member x xs) && distinct xs

module _ {A : Type 0} ⦃e : Eq A⦄ where
  pub member-In : (a : A) (xs : List A) → member a xs ≡ true → In a xs
  member-In a [] h = cc
  member-In a (x ∷ xs) h = elim (Bool-cases (a == x)) [
    | inl same ↦ inl ((e.equal_iff a x).0 same)
    | inr other ↦ inr (member-In a xs (ground arith))
  ]

  pub In-member : (a : A) (xs : List A) → In a xs → member a xs ≡ true
  In-member a [] m = elim m [ ]
  In-member a (x ∷ xs) (inl same) = ground (arith, e.equal_iff a x)
  In-member a (x ∷ xs) (inr m) = ground (arith, In-member a xs m)
