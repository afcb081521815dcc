-- ===== src/Idempotency/Memory/Runs.antt =====
-- Any sequence of calls of the backend, in the order in which its lock lets them in.
use agent_actum.Base.{
  ℕ, String, text_eq, nat_eq, ◌==◌, ◌≡◌, refl, ◌∙◌, true, false, Option, some, lookup,
  lookup-insert, lookup-insert_ne, insert, arith, inl, inr, Option-cases, text_iff, Bool-cases,
}
use agent_actum.Model.Json.{Value}
use agent_actum.Model.Exec.{ok, Result-cases}
use agent_actum.Model.Host.{Host}
use agent_actum.Idempotency.Models.{
  IdempotencyRecord, is_completed, validate_completion, IdempotencyClaim,
}
use agent_actum.Idempotency.Memory.{
  InMemoryIdempotencyBackend, claim, get_record, new_record, mark_completed, completed_record,
}
use agent_actum.Idempotency.Memory.Claims.{claim-Claimed}

pub data Step (h : Host) : InMemoryIdempotencyBackend → InMemoryIdempotencyBackend → Type 0 where
  claims : (k : String) (s : InMemoryIdempotencyBackend) → Step h s (claim h k s).1
  completes :
      (k : String) (token : ℕ) (reference : Option String) (result : Value)
      (s : InMemoryIdempotencyBackend)
      → Step h s (mark_completed h k token reference result s).1

pub data Reach (h : Host) (s : InMemoryIdempotencyBackend)
    : InMemoryIdempotencyBackend → Type 0 where
  here : Reach h s s
  next : {t u : InMemoryIdempotencyBackend} → Reach h s t → Step h t u → Reach h s u

-- A later record of a key: of the same owner, and the same one if the earlier was completed.
pub record Later (r r' : IdempotencyRecord) : Type 0 where
  pub same_owner : r'.owner_token ≡ r.owner_token
  pub frozen : is_completed r.status ≡ true → r' ≡ r

Later-refl : (r : IdempotencyRecord) → Later r r
Later-refl r = record { same_owner = refl; frozen = λ _. refl }

Later-trans : {r s t : IdempotencyRecord} → Later r s → Later s t → Later r t
Later-trans a b = record {
  same_owner = b.same_owner ∙ a.same_owner;
  frozen = λ c. let e = a.frozen c in b.frozen (rw e c) ∙ e;
}

abbrev pub StillHeld : String → IdempotencyRecord → InMemoryIdempotencyBackend → Type 0
StillHeld k r s = (r' : IdempotencyRecord) × (get_record k s ≡ some r') × Later r r'

module _ (h : Host) (k : String) (r : IdempotencyRecord) where
  claim_keeps :
      (j : String) (s : InMemoryIdempotencyBackend)
      → get_record k s ≡ some r
      → get_record k (claim h j s).1 ≡ some r
  unfolding claim get_record
  claim_keeps j s held = elim (Option-cases (lookup j s.records)) [
    | inl absent ↦ elim (Result-cases (new_record h j s.drawn)) [
      | inl (n, made) ↦ rw (absent, made) (ground (arith, lookup-insert_ne j k n s.records))
      | inr (x, refused) ↦ rw (absent, refused) held
    ]
    | inr (n, present) ↦ rw present held
  ]

  completed_record-owner :
      (o : IdempotencyRecord) (reference : Option String) (result : Value) (n : ℕ)
      (m : IdempotencyRecord)
      → completed_record h o reference result n ≡ ok m
      → m.owner_token ≡ o.owner_token
  unfolding validate_completion
  completed_record-owner o reference result n m e = ground arith

  insert_keeps :
      (j : String) (o m : IdempotencyRecord) (s : InMemoryIdempotencyBackend)
      → lookup k s.records ≡ some r
      → lookup j s.records ≡ some o
      → is_completed o.status ≡ false
      → m.owner_token ≡ o.owner_token
      → (r' : IdempotencyRecord) × (lookup k (insert j m s.records) ≡ some r') × Later r r'
  insert_keeps j o m s held present pending owner = elim (Bool-cases (j == k)) [
    | inl same ↦
        let e : j ≡ k = (text_iff j k).0 same in
        let o-eq : o ≡ r = ground arith in
        (
          m,
          ground (arith, lookup-insert j k m s.records),
          record { same_owner = rw owner (ground arith); frozen = λ f. ground arith },
        )
    | inr differ ↦ (r, ground (arith, lookup-insert j k m s.records), Later-refl r)
  ]

  complete_keeps :
      (j : String) (token : ℕ) (reference : Option String) (result : Value)
      (s : InMemoryIdempotencyBackend)
      → get_record k s ≡ some r
      → StillHeld k r (mark_completed h j token reference result s).1
  unfolding mark_completed get_record
  complete_keeps j token reference result s held = elim (Option-cases (lookup j s.records)) [
    | inl absent ↦ (r, rw absent held, Later-refl r)
    | inr (o, present) ↦ elim (Bool-cases (o.owner_token == token)) [
      | inr other ↦ (r, rw (present, other) held, Later-refl r)
      | inl own ↦ elim (Bool-cases (is_completed o.status)) [
        | inl finished ↦ (r, rw (present, own, finished) held, Later-refl r)
        | inr pending ↦ elim (Result-cases (completed_record h o reference result s.drawn)) [
          | inr (x, refused) ↦ (r, rw (present, own, pending, refused) held, Later-refl r)
          | inl (m, made) ↦
              rw (present, own, pending, made)
                (insert_keeps j o m s held present pending
                  (completed_record-owner o reference result s.drawn m made))
        ]
      ]
    ]
  ]

  pub Step-keeps :
      {s t : InMemoryIdempotencyBackend} → Step h s t → get_record k s ≡ some r → StillHeld k r t
  Step-keeps (claims j s) held = (r, claim_keeps j s held, Later-refl r)
  Step-keeps (completes j token reference result s) held =
      complete_keeps j token reference result s held

-- Once a key has a record it keeps one under any later calls, by whomever: the owner's token stays
-- the same, and a completed record is never changed again.
pub Reach-keeps :
    (h : Host) (k : String) (r : IdempotencyRecord) {s t : InMemoryIdempotencyBackend}
    → Reach h s t
    → get_record k s ≡ some r
    → StillHeld k r t
Reach-keeps h k r here held = (r, held, Later-refl r)
Reach-keeps h k r (next run step) held =
    let (m, held', l) = Reach-keeps h k r run held in
    let (n, held'', l') = Step-keeps h k m step held' in (n, held'', Later-trans l l')

-- A claim of a key that has a record returns that record, not acquired.
pub claim_held :
    (h : Host) (k : String) (s : InMemoryIdempotencyBackend) (r : IdempotencyRecord)
    → get_record k s ≡ some r
    → claim h k s ≡ (ok (record { claimed = r; acquired = false }), s)
unfolding claim get_record
claim_held h k s r held = rw held

-- A key is acquired at most once: after a claim that acquired it, and any calls of the backend, a
-- claim of the same key returns without raising, is not acquired, and shows the first claimer's
-- token.
pub claim_once :
    (h : Host) (k : String) (s : InMemoryIdempotencyBackend) {s' t : InMemoryIdempotencyBackend}
    {c : IdempotencyClaim}
    → claim h k s ≡ (ok c, s')
    → c.acquired ≡ true
    → Reach h s' t
    → (r : IdempotencyRecord) × (claim h k t ≡ (ok (record { claimed = r; acquired = false }), t))
      × (r.owner_token ≡ c.claimed.owner_token)
claim_once h k s {s'} {t} {c} e got run =
    let held : get_record k s' ≡ some c.claimed = ground (arith, claim-Claimed h k s c s' e) in
    let (r, held', l) = Reach-keeps h k c.claimed run held in
    (r, claim_held h k t r held', l.same_owner)
