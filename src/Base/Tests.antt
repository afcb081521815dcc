-- ===== src/Base/Tests.antt =====
-- Boolean tests, the conditional, equality by instances, and case splits that keep the equation.
use Prim.Native.Nat.{ℕ, compare, Ordering}
use Prim.Native.String.{String}
use mathlib.Core.Path.{◌≡◌, refl}
use mathlib.Core.Logic.{◌↔◌, ◌⊎◌, inl, inr}
use mathlib.Core.Bool.{Bool, true, false, ◌&&◌}
use mathlib.Core.Option.{Option, none, some}
use native.Mathlib.Omega.{arith}
use text.Mathlib.Text.{◌==◌ as str_beq}
use text.Mathlib.TextEquality.{eq_iff}

abbrev pub ltb : ℕ → ℕ → Bool
ltb a b = elim (compare a b) [ Ordering.lt ↦ true | _ ↦ false ]

abbrev pub leb : ℕ → ℕ → Bool
leb a b = elim (compare a b) [ Ordering.gt ↦ false | _ ↦ true ]

abbrev nat_beq : ℕ → ℕ → Bool
nat_beq a b = elim (compare a b) [ Ordering.eq ↦ true | _ ↦ false ]

pub nat_beq_iff : (a b : ℕ) → (nat_beq a b ≡ true) ↔ (a ≡ b)
nat_beq_iff a b = ground arith

-- Python's `==` at the types that the program compares: identifiers and texts.
pub record Eq {ℓ} (Key : Type ℓ) : Type ℓ where
  pub equal : Key → Key → Bool
  pub equal_iff : (j k : Key) → (equal j k ≡ true) ↔ (j ≡ k)

instance abbrev pub text_eq : Eq String
text_eq = record { equal = str_beq; equal_iff = eq_iff }

instance abbrev pub nat_eq : Eq ℕ
nat_eq = record { equal = nat_beq; equal_iff = nat_beq_iff }

infix 50 ◌==◌
abbrev pub ◌==◌ {ℓ} : {Key : Type ℓ} ⦃e : Eq Key⦄ → Key → Key → Bool
◌==◌ ⦃e⦄ j k = e.equal j k

pub text_iff : (s t : String) → ((s == t) ≡ true) ↔ (s ≡ t)
text_iff = eq_iff

infix 1 if◌then◌else◌
abbrev pub if◌then◌else◌ {ℓ} : {A : Type ℓ} → Bool → A → A → A
if true then x else y = x
if false then x else y = y

pub Bool-cases : (b : Bool) → (b ≡ true) ⊎ (b ≡ false)
Bool-cases true = inl refl
Bool-cases false = inr refl

pub Option-cases {ℓ} : {A : Type ℓ} (o : Option A) → (o ≡ none) ⊎ ((a : A) × (o ≡ some a))
Option-cases none = inl refl
Option-cases (some a) = inr (a, refl)

abbrev pub is_some {ℓ} : {A : Type ℓ} → Option A → Bool
is_some none = false
is_some (some _) = true

abbrev pub is_none {ℓ} : {A : Type ℓ} → Option A → Bool
is_none none = true
is_none (some _) = false

-- Python's `a or b` on an optional argument.
abbrev pub or_else {ℓ} : {A : Type ℓ} → Option A → A → A
or_else none b = b
or_else (some a) b = a

pub and-true : (a b : Bool) → (a && b) ≡ true → (a ≡ true) × (b ≡ true)
and-true a b h = ground arith
