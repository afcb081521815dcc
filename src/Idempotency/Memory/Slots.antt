-- ===== src/Idempotency/Memory/Slots.antt =====
-- The backend as an abstract machine for each key: free, then held by a token, then settled.
use agent_actum.Base.{
  List, [], ◌∷◌, ℕ, String, text_eq, text_iff, ◌==◌, ◌≡◌, ◌≢◌, refl, sym, ap, ◌∙◌, subst, inl, inr,
  true, false, if◌then◌else◌, Option, none, some, lookup, lookup-insert_self, lookup-insert_ne,
  Bool-cases, Option-cases,
}
use agent_actum.Model.Json.{Value}
use agent_actum.Model.Exec.{Result, ok, err, Result-cases}
use agent_actum.Model.Host.{Host}
use agent_actum.Idempotency.Models.{IdempotencyRecord, is_completed}
use agent_actum.Idempotency.Memory.{
  InMemoryIdempotencyBackend, claim, get_record, new_record, mark_completed,
}
use agent_actum.Idempotency.Memory.Claims.{new_record-in_progress}
use agent_actum.Idempotency.Memory.Completions.{Stored, Completed, mark_completed-Completed}
use agent_actum.Idempotency.Memory.Runs.{Step, claims, completes, Reach, here, next}

pub data Slot : Type 0 where
  free : Slot
  held : ℕ → Slot
  settled : ℕ → Value → Slot

abbrev slot_of : Option IdempotencyRecord → Slot
slot_of none = free
slot_of (some r) =
    if is_completed r.status then settled r.owner_token r.result else held r.owner_token

-- What a key looks like from outside.
abbrev pub slot : String → InMemoryIdempotencyBackend → Slot
slot k s = slot_of (get_record k s)

-- A call of the backend, as a key sees it: of another key, a claim of this key, or a completion of
-- it by a caller with this token.
pub data Request : Type 0 where
  elsewhere claiming : Request
  completing : (token : ℕ) → Value → Request

-- A claim may give a free key to a new token; a completion may settle a held key, if the caller's
-- token is the holder's. There is no other step: nothing frees a key, passes it on, or changes what
-- is settled.
pub data Move : Request → Slot → Slot → Type 0 where
  stay : (q : Request) (a : Slot) → Move q a a
  take : (token : ℕ) → Move claiming free (held token)
  settle :
      (token : ℕ) (result : Value)
      → Move (completing token result) (held token) (settled token result)

-- The moves for a sequence of requests, the last one first.
pub data Moves (a : Slot) : List Request → Slot → Type 0 where
  no_move : Moves a [] a
  then_move :
      {q : Request} {qs : List Request} {b c : Slot}
      → Moves a qs b
      → Move q b c
      → Moves a (q ∷ qs) c

-- The requests behind calls of the backend, as the key `k` sees them.
abbrev pub request :
    (h : Host) (k : String) {s t : InMemoryIdempotencyBackend} → Step h s t → Request
request h k (claims j s) = if j == k then claiming else elsewhere
request h k (completes j token reference result s) =
    if j == k then completing token result else elsewhere

abbrev pub requests :
    (h : Host) (k : String) {s t : InMemoryIdempotencyBackend} → Reach h s t → List Request
requests h k here = []
requests h k (next run step) = request h k step ∷ requests h k run

-- Moves between the slots of two records.
Move-of : {q : Request} {a b a' b' : Slot} → a ≡ a' → b ≡ b' → Move q a' b' → Move q a b
Move-of {q} {a} {b} {a'} {b'} p r m = subst (λ x. Move q x b) (sym p) (subst (Move q a') (sym r) m)

module _ (h : Host) (k : String) where
  -- A call that leaves the record of the key alone.
  unmoved :
      (q : Request) (s t : InMemoryIdempotencyBackend)
      → get_record k t ≡ get_record k s
      → Move q (slot k s) (slot k t)
  unmoved q s t same = Move-of refl (ap slot_of same) (stay q (slot k s))

  same_records :
      (s t : InMemoryIdempotencyBackend) → t.records ≡ s.records → get_record k t ≡ get_record k s
  unfolding get_record
  same_records s t same = ap (lookup k) same

  claim-Move : (s : InMemoryIdempotencyBackend) → Move claiming (slot k s) (slot k (claim h k s).1)
  unfolding claim get_record
  claim-Move s = elim (Option-cases (lookup k s.records)) [
    | inr (r, present) ↦
        rw present (Move-of refl (ap slot_of present) (stay claiming (slot_of (some r))))
    | inl absent ↦ elim (Result-cases (new_record h k s.drawn)) [
      | inr (x, refused) ↦
          rw (absent, refused) (Move-of refl (ap slot_of absent) (stay claiming free))
      | inl (r, made) ↦
          let pending : is_completed r.status ≡ false =
            ap is_completed (new_record-in_progress h k s r made) in
          let taken : slot_of (some r) ≡ held r.owner_token = rw pending refl in
          rw (absent, made)
            (Move-of refl (ap slot_of (lookup-insert_self k r s.records) ∙ taken)
              (take r.owner_token))
    ]
  ]

  claim_other :
      (j : String) (s : InMemoryIdempotencyBackend)
      → j ≢ k
      → get_record k (claim h j s).1 ≡ get_record k s
  unfolding claim get_record
  claim_other j s other = elim (Option-cases (lookup j s.records)) [
    | inr (r, present) ↦ rw present refl
    | inl absent ↦ elim (Result-cases (new_record h j s.drawn)) [
      | inr (x, refused) ↦ rw (absent, refused) refl
      | inl (r, made) ↦ rw (absent, made) (lookup-insert_ne j k r s.records other)
    ]
  ]

  -- A completion that returned, seen by the key: nothing, or the holder has settled it.
  put-Move :
      (token : ℕ) (result : Value) (s t : InMemoryIdempotencyBackend) (m : IdempotencyRecord)
      → Stored k token result s m t
      → Move (completing token result) (slot k s) (slot k t)
  put-Move token result s t m (r, _, _, inl (_, _, same)) =
      unmoved (completing token result) s t (ap (get_record k) same)
  put-Move token result s t m (r, present, owner, inr (pending, stored, same, done, value, _)) =
      let before : slot k s ≡ held token = ap slot_of present ∙ (rw (pending, owner) refl) in
      let after : slot k t ≡ settled token result =
        ap slot_of stored ∙ (rw (done, same, value) refl) in
      Move-of before after (settle token result)

  others_stay :
      (j : String) (token : ℕ) (result : Value) (s t : InMemoryIdempotencyBackend)
      (m : IdempotencyRecord)
      → j ≢ k
      → Stored j token result s m t
      → get_record k t ≡ get_record k s
  others_stay j token result s t m other (r, _, _, inl (_, _, same)) = ap (get_record k) same
  others_stay j token result s t m other (r, _, _, inr (_, _, _, _, _, others)) = others k other

  complete-Move :
      (j : String) (token : ℕ) (reference : Option String) (result : Value)
      (s : InMemoryIdempotencyBackend)
      → Move
          (if j == k then completing token result else elsewhere)
          (slot k s)
          (slot k (mark_completed h j token reference result s).1)
  complete-Move j token reference result s =
      by_outcome (mark_completed h j token reference result s)
        (mark_completed-Completed h j token reference result s)
    where
      by_outcome :
          (x : Result IdempotencyRecord × InMemoryIdempotencyBackend)
          → Completed h j token reference result s x
          → Move (if j == k then completing token result else elsewhere) (slot k s) (slot k x.1)
      by_outcome (err e, t) (same, _) = unmoved _ s t (same_records s t same)
      by_outcome (ok m, t) q = elim (Bool-cases (j == k)) [
        | inl equal ↦ rw equal (
            put-Move token result s t m
              (subst (λ i. Stored i token result s m t) ((text_iff j k).0 equal) q))
        | inr differ ↦ unmoved _ s t (
            others_stay j token result s t m
              (λ e. let never : true ≡ false = sym ((text_iff j k).1 e) ∙ differ in cc) q)
      ]

  -- A call of the backend is one move of the abstract machine of each key.
  Step-Move :
      {s t : InMemoryIdempotencyBackend}
      → (step : Step h s t) → Move (request h k step) (slot k s) (slot k t)
  Step-Move (claims j s) = elim (Bool-cases (j == k)) [
    | inl equal ↦ rw equal (
        subst (λ i. Move claiming (slot k s) (slot k (claim h i s).1))
          (sym ((text_iff j k).0 equal)) (claim-Move s))
    | inr differ ↦
        unmoved _ s _ (
          claim_other j s (λ e. let never : true ≡ false = sym ((text_iff j k).1 e) ∙ differ in cc))
  ]
  Step-Move (completes j token reference result s) = complete-Move j token reference result s

-- To each key, any sequence of calls of the backend looks like a run of the abstract machine over
-- the requests that the calls make of the key: a claim may give a free key to a token, and a
-- completion may settle a held key if its caller's token is the one that holds it; nothing else
-- happens to the key, whatever the calls are and whichever of them raise.
pub Reach-Moves :
    (h : Host) (k : String) {s t : InMemoryIdempotencyBackend} (run : Reach h s t)
    → Moves (slot k s) (requests h k run) (slot k t)
Reach-Moves h k here = no_move
Reach-Moves h k (next run step) = then_move (Reach-Moves h k run) (Step-Move h k step)
