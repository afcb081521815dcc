-- ===== src/Idempotency/Memory/Claims.antt =====
-- What one call of the backend does, branch by branch.
use agent_actum.Base.{
  ℕ, String, text_eq, nat_eq, ◌≡◌, ◌≢◌, ◌⊎◌, true, false, Option, none, some, lookup,
  lookup-insert_self, arith, inl, inr, Option-cases,
}
use agent_actum.Model.Json.{Value}
use agent_actum.Model.Exec.{ok, err, not_owner, Result-cases}
use agent_actum.Model.Host.{Host}
use agent_actum.Idempotency.Models.{
  IdempotencyRecord, in_progress, validate_completion, IdempotencyClaim,
}
use agent_actum.Idempotency.Memory.{
  InMemoryIdempotencyBackend, claim, get_record, new_record, mark_completed,
}

-- The state that a claim leaves, by whether it acquired the key.
abbrev pub Claimed :
    String → InMemoryIdempotencyBackend → IdempotencyClaim → InMemoryIdempotencyBackend → Type 0
Claimed k s c s' =
    ((c.acquired ≡ true)
      × (get_record k s ≡ none)
      × (get_record k s' ≡ some c.claimed)
      × (c.claimed.status ≡ in_progress))
    ⊎ ((c.acquired ≡ false) × (get_record k s ≡ some c.claimed) × (s' ≡ s))

module _ (h : Host) (k : String) (s : InMemoryIdempotencyBackend) where
  pub new_record-in_progress :
      (r : IdempotencyRecord) → new_record h k s.drawn ≡ ok r → r.status ≡ in_progress
  unfolding validate_completion
  new_record-in_progress r e = ground arith

  -- A claim that returns has acquired the key exactly when there was no record of it, and the key
  -- is then held by the new record in progress; otherwise it shows the record and changes nothing.
  pub claim-Claimed :
      (c : IdempotencyClaim) (s' : InMemoryIdempotencyBackend)
      → claim h k s ≡ (ok c, s')
      → Claimed k s c s'
  unfolding claim get_record
  claim-Claimed c s' e = elim (Option-cases (lookup k s.records)) [
    | inl absent ↦ elim (Result-cases (new_record h k s.drawn)) [
      | inl (r, made) ↦
          ground (arith, lookup-insert_self k r s.records, new_record-in_progress r made)
      | inr (x, refused) ↦ ground arith
    ]
    | inr (r, held) ↦ ground arith
  ]

  -- A completion with another token than the owner's raises and changes nothing.
  pub mark_completed_intruder :
      (token : ℕ) (reference : Option String) (result : Value) (r : IdempotencyRecord)
      → get_record k s ≡ some r
      → r.owner_token ≢ token
      → mark_completed h k token reference result s ≡ (err (not_owner k), s)
  unfolding mark_completed get_record
  mark_completed_intruder token reference result r held other = rw held (ground arith)
