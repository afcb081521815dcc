-- ===== src/Model/Exec.antt =====
-- Methods that change an object and may raise. What was written before a raise stays written, so
-- the state comes back beside the error too.
use agent_actum.Base.{
  ℕ, String, ◌≡◌, refl, ap, subst, Bool, true, false, Option, none, some, ◌⊎◌, inl, inr, arith,
}
use agent_actum.Model.Enums.{TransactionStatus}

-- The exceptions that the program raises, and `host` for those of code that it is given.
pub data Error : Type 0 where
  validation : String → Error
  value_error : String → Error
  key_error : String → Error
  type_error : String → Error
  illegal_transition : TransactionStatus → TransactionStatus → Error
  duplicate_tool : String → Error
  unknown_tool : String → Error
  not_owner : String → Error
  unknown_operation : ℕ → Error
  missing_field : String → Error
  integration : String → Error
  host : ℕ → Error

pub data Result (A : Type 0) : Type 0 where
  ok : A → Result A
  err : Error → Result A

abbrev pub Exec : Type 0 → Type 0 → Type 0
Exec S A = S → Result A × S

module _ {S A : Type 0} where
  unfoldable pub pure : A → Exec S A
  pure a s = (ok a, s)

  unfoldable pub raise : Error → Exec S A
  raise e s = (err e, s)

  unfoldable pub lift : Result A → Exec S A
  lift r s = (r, s)

  unfoldable pub gets : (S → A) → Exec S A
  gets f s = (ok (f s), s)

unfoldable pub modify : {S : Type 0} → (S → S) → Exec S (Unit {0})
modify f s = (ok tt, f s)

infixl 10 ◌>>=◌ ◌>>◌
unfoldable pub ◌>>=◌ : {S A B : Type 0} → Exec S A → (A → Exec S B) → Exec S B
unfolding pure raise lift gets modify
◌>>=◌ m f s = let (r, s') = m s in elim r [ ok a ↦ f a s' | err e ↦ (err e, s') ]

abbrev pub ◌>>◌ : {S A B : Type 0} → Exec S A → Exec S B → Exec S B
m >> k = m >>= λ _. k

-- `if not test: raise e`.
unfoldable pub guard : {S : Type 0} → Bool → Error → Exec S (Unit {0})
guard true e = pure tt
guard false e = raise e

-- `try: …; except Exception: …`: the error as a value.
abbrev pub attempt : {S A : Type 0} → Exec S A → Exec S (Result A)
attempt m s = let (r, s') = m s in (ok r, s')

-- Whether a call returned, and what it returned.
abbrev pub returned : {A : Type 0} → Result A → Option A
returned (ok a) = some a
returned (err _) = none

pub ok_injective : {A : Type 0} {a b : A} → ok a ≡ ok b → a ≡ b
ok_injective e = ground (arith, e)

pub Result-cases :
    {A : Type 0} (r : Result A) → ((a : A) × (r ≡ ok a)) ⊎ ((e : Error) × (r ≡ err e))
Result-cases (ok a) = inl (a, refl)
Result-cases (err e) = inr (e, refl)

-- What holds of the state after a bind: the first method raised, or it returned and the second ran.
pub bind_elim :
    {S A B : Type 0} (m : Exec S A) (f : A → Exec S B) (s : S) (R : S → Type 0)
    → ((e : Error) (u : S) → m s ≡ (err e, u) → R u)
    → ((a : A) (u : S) → m s ≡ (ok a, u) → R (f a u).1)
    → R ((m >>= f) s).1
unfolding ◌>>=◌
bind_elim {S} {A} {B} m f s R raised went = go (m s) refl
  where
    go :
        (x : Result A × S)
        → m s ≡ x
        → R (elim x.0 as (λ _. Result B × S) [ ok a ↦ f a x.1 | err e ↦ (err e, x.1) ]).1
    go (ok a, u) e = went a u e
    go (err x, u) e = raised x u e

-- A property of the state that the first method establishes and the second keeps.
pub bind_along :
    {S A B : Type 0} (P : S → Type 0) (m : Exec S A) (f : A → Exec S B) (s : S)
    → P (m s).1
    → ((a : A) (u : S) → m s ≡ (ok a, u) → P u → P (f a u).1)
    → P ((m >>= f) s).1
bind_along P m f s p k =
    bind_elim m f s P (λ e u q. subst P (ap (λ r. r.1) q) p)
      (λ a u q. k a u q (subst P (ap (λ r. r.1) q) p))

-- How a bind goes on, by how its first method ended.
module _ {S A B : Type 0} (m : Exec S A) (f : A → Exec S B) (s t : S) where
  pub bind_ok : (a : A) → m s ≡ (ok a, t) → (m >>= f) s ≡ f a t
  unfolding ◌>>=◌
  bind_ok a e = rw (e, ◌>>=◌) (ap (λ p. f a p.1) e)

  pub bind_err : (x : Error) → m s ≡ (err x, t) → (m >>= f) s ≡ (err x, t)
  unfolding ◌>>=◌
  bind_err x e = rw (e, ◌>>=◌) (ap (λ p. (err x, p.1)) e)

-- A property of the state that both methods of a bind keep.
pub bind_keeps :
    {S A B : Type 0} (P : S → Type 0) (m : Exec S A) (f : A → Exec S B)
    → ((s : S) → P s → P (m s).1)
    → ((a : A) (s : S) → P s → P (f a s).1)
    → (s : S) → P s
    → P ((m >>= f) s).1
bind_keeps P m f first second s p =
    bind_elim m f s P (λ e u q. subst P (ap (λ r. r.1) q) (first s p))
      (λ a u q. second a u (subst P (ap (λ r. r.1) q) (first s p)))

-- Inversion of a bind that returned.
pub >>=-eq-ok :
    {S A B : Type 0} (m : Exec S A) (f : A → Exec S B) (s t : S) {b : B}
    → (m >>= f) s ≡ (ok b, t)
    → (a : A) × (u : S) × (m s ≡ (ok a, u)) × (f a u ≡ (ok b, t))
unfolding ◌>>=◌
>>=-eq-ok {S} {A} {B} m f s t {b} h = go (m s) refl h
  where
    go :
        (p : Result A × S)
        → m s ≡ p
        → (let (r, s') = p in elim r [ ok a ↦ f a s' | err e ↦ (err e, s') ]) ≡ (ok b, t)
        → (a : A) × (u : S) × (m s ≡ (ok a, u)) × (f a u ≡ (ok b, t))
    go (ok a, u) e h = (a, u, e, h)
    go (err x, u) e h = cc

-- Inversion of a lift and of a return.
module _ {S A : Type 0} where
  pub lift-eq-ok : (r : Result A) (s t : S) (a : A) → lift r s ≡ (ok a, t) → r ≡ ok a
  unfolding lift
  lift-eq-ok r s t a e = ap (λ p. p.0) e

  pub pure_state : (b : A) (s t : S) (a : A) → pure b s ≡ (ok a, t) → s ≡ t
  unfolding pure
  pure_state b s t a e = ap (λ p. p.1) e

  pub pure-eq-ok : (b : A) (s t : S) (a : A) → pure b s ≡ (ok a, t) → b ≡ a
  unfolding pure
  pure-eq-ok b s t a e = ground (arith, e)
