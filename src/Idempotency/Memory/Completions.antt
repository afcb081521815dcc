-- ===== src/Idempotency/Memory/Completions.antt =====
-- How a completion ends, on every branch.
use agent_actum.Base.{
  ℕ, String, text_eq, nat_eq, ◌==◌, ◌≡◌, ◌≢◌, refl, ◌∙◌, ◌⊎◌, inl, inr, true, false, Option, none,
  some, lookup, lookup-insert_self, lookup-insert_ne, arith, Option-cases, Bool-cases,
}
use agent_actum.Model.Json.{Value}
use agent_actum.Model.Exec.{Result, Error, ok, err, key_error, not_owner, Result-cases}
use agent_actum.Model.Host.{Host}
use agent_actum.Idempotency.Models.{IdempotencyRecord, is_completed, validate_completion}
use agent_actum.Idempotency.Memory.{
  InMemoryIdempotencyBackend, get_record, completed_record, mark_completed,
}

-- A completion that raised: no record of the key, a record of another owner, or the error of the new
-- record, which pydantic or its validator refuses.
abbrev pub Refused :
    Host → String → ℕ → Option String → Value → InMemoryIdempotencyBackend → Error → Type 0
Refused h k token reference result s e =
    ((get_record k s ≡ none) × (e ≡ key_error k))
    ⊎ ((r : IdempotencyRecord) × (get_record k s ≡ some r)
        × (((r.owner_token ≢ token) × (e ≡ not_owner k))
            ⊎ ((r.owner_token ≡ token)
                × (is_completed r.status ≡ false)
                × (completed_record h r reference result s.drawn ≡ err e))))

-- A completion that returned `m`: the record as it was, if it was completed before, or the owner's
-- record in progress, now completed with the result; the records of the other keys stay.
abbrev pub Stored :
    String
    → ℕ
    → Value
    → InMemoryIdempotencyBackend
    → IdempotencyRecord
    → InMemoryIdempotencyBackend
    → Type 0
Stored k token result s m s' =
    (r : IdempotencyRecord) × (get_record k s ≡ some r)
    × (r.owner_token ≡ token)
    × (((is_completed r.status ≡ true) × (m ≡ r) × (s' ≡ s))
        ⊎ ((is_completed r.status ≡ false)
            × (get_record k s' ≡ some m)
            × (m.owner_token ≡ token)
            × (is_completed m.status ≡ true)
            × (m.result ≡ result)
            × ((j : String) → k ≢ j → get_record j s' ≡ get_record j s)))

abbrev pub Completed :
    Host
    → String
    → ℕ
    → Option String
    → Value
    → InMemoryIdempotencyBackend
    → Result IdempotencyRecord × InMemoryIdempotencyBackend
    → Type 0
Completed h k token reference result s (err e, s') =
    (s'.records ≡ s.records) × Refused h k token reference result s e
Completed h k token reference result s (ok m, s') = Stored k token result s m s'

module _ (h : Host) (k : String) (token : ℕ) (reference : Option String) (result : Value)
    (s : InMemoryIdempotencyBackend) where
  completed_record-fields :
      (r m : IdempotencyRecord)
      → completed_record h r reference result s.drawn ≡ ok m
      → (m.owner_token ≡ r.owner_token) × (is_completed m.status ≡ true) × (m.result ≡ result)
  unfolding validate_completion
  completed_record-fields r m e = ground arith

  pub mark_completed-Completed :
      Completed h k token reference result s (mark_completed h k token reference result s)
  unfolding mark_completed get_record
  mark_completed-Completed = elim (Option-cases (lookup k s.records)) [
    | inl absent ↦ rw absent (refl, inl (absent, refl))
    | inr (r, held) ↦ elim (Bool-cases (r.owner_token == token)) [
      | inr other ↦ rw (held, other) (refl, inr (r, held, inl (ground arith, refl)))
      | inl own ↦ elim (Bool-cases (is_completed r.status)) [
        | inl finished ↦
            rw (held, own, finished) (r, held, ground arith, inl (finished, refl, refl))
        | inr pending ↦ elim (Result-cases (completed_record h r reference result s.drawn)) [
          | inr (x, refused) ↦
              rw (held, own, pending, refused)
                (refl, inr (r, held, inr (ground arith, pending, refused)))
          | inl (m, made) ↦
              let (owner, done, value) = completed_record-fields r m made in
              let same : r.owner_token ≡ token = ground arith in
              rw (held, own, pending, made)
                (
                  r,
                  held,
                  same,
                  inr (
                    pending,
                    lookup-insert_self k m s.records,
                    owner ∙ same,
                    done,
                    value,
                    λ j other. lookup-insert_ne k j m s.records other,
                  ),
                )
        ]
      ]
    ]
  ]
