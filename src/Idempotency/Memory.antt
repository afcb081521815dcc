-- ===== src/Idempotency/Memory.antt =====
-- `InMemoryIdempotencyBackend` of idempotency/backend.py.
pub mod Claims
pub mod Completions
pub mod Runs
pub mod Slots
pub mod Tests
use agent_actum.Base.{
  ℕ, suc, String, text_eq, nat_eq, ◌==◌, Bool, true, false, if◌then◌else◌, Option, none, some, List,
  [], ◌∷◌, Dict, lookup, insert,
}
use agent_actum.Model.Json.{Value, null}
use agent_actum.Model.Exec.{
  Result, ok, err, Exec, key_error, not_owner, validation, ◌>>=◌, lift, pure, modify, ◌>>◌,
}
use agent_actum.Model.Host.{Host, checked, short_text, long_text}
use agent_actum.Idempotency.Models.{
  IdempotencyRecord, IdempotencyRecordStatus, in_progress, completed, is_completed,
  validate_completion, IdempotencyClaim, IdempotencyBackend,
}

-- `_records`, and the number of draws from the clock and from `uuid4`.
pub record InMemoryIdempotencyBackend : Type 0 where
  pub records : Dict String IdempotencyRecord
  pub drawn : ℕ

abbrev pub empty : InMemoryIdempotencyBackend
empty = record { records = []; drawn = 0 }

unfoldable pub get_record : String → InMemoryIdempotencyBackend → Option IdempotencyRecord
get_record key s = lookup key s.records

-- The record of a new claim.
abbrev pub new_record : Host → String → ℕ → Result IdempotencyRecord
new_record h key drawn = elim (checked h short_text key) [
  | err e ↦ err e
  | ok stored ↦ validate_completion (record {
    key = stored;
    owner_token = h.uuid4 drawn;
    status = in_progress;
    claimed_at = h.clock (suc drawn);
    completed_at = none;
    result_reference = none;
    result = null;
  })
]

abbrev pub store_claim :
    String
    → Result IdempotencyRecord
    → InMemoryIdempotencyBackend
    → Result IdempotencyClaim × InMemoryIdempotencyBackend
store_claim key (err e) s = (err e, record s { drawn = suc (suc s.drawn) })
store_claim key (ok r) s = (
  ok (record { claimed = r; acquired = true }),
  record { records = insert key r s.records; drawn = suc (suc s.drawn) },
)

abbrev pub claim_from :
    Host
    → String
    → Option IdempotencyRecord
    → InMemoryIdempotencyBackend
    → Result IdempotencyClaim × InMemoryIdempotencyBackend
claim_from h key (some existing) s = (ok (record { claimed = existing; acquired = false }), s)
claim_from h key none s = store_claim key (new_record h key s.drawn) s

unfoldable pub claim : Host → String → Exec InMemoryIdempotencyBackend IdempotencyClaim
claim h key s = claim_from h key (lookup key s.records) s

-- An optional reference under its rule.
abbrev pub checked_reference : Host → Option String → Result (Option String)
checked_reference h none = ok none
checked_reference h (some s) = elim (checked h long_text s) [ ok t ↦ ok (some t) | err e ↦ err e ]

-- The record of a completion.
abbrev pub completed_record :
    Host → IdempotencyRecord → Option String → Value → ℕ → Result IdempotencyRecord
completed_record h r reference result drawn = elim (checked_reference h reference) [
  | err e ↦ err e
  | ok stored ↦
      if h.json result
      then validate_completion (record {
        key = r.key;
        owner_token = r.owner_token;
        status = completed;
        claimed_at = r.claimed_at;
        completed_at = some (h.clock drawn);
        result_reference = stored;
        result = result;
      })
      else err (validation "result")
]

abbrev pub store_completion :
    String
    → Result IdempotencyRecord
    → InMemoryIdempotencyBackend
    → Result IdempotencyRecord × InMemoryIdempotencyBackend
store_completion key (err e) s = (err e, record s { drawn = suc s.drawn })
store_completion key (ok r) s =
    (ok r, record { records = insert key r s.records; drawn = suc s.drawn })

abbrev pub complete_from :
    Host
    → String
    → ℕ
    → Option String
    → Value
    → Option IdempotencyRecord
    → InMemoryIdempotencyBackend
    → Result IdempotencyRecord × InMemoryIdempotencyBackend
complete_from h key owner_token reference result none s = (err (key_error key), s)
complete_from h key owner_token reference result (some r) s =
    if r.owner_token == owner_token
    then (if is_completed r.status
        then (ok r, s)
        else store_completion key (completed_record h r reference result s.drawn) s)
    else (err (not_owner key), s)

unfoldable pub mark_completed :
    Host → String → ℕ → Option String → Value → Exec InMemoryIdempotencyBackend IdempotencyRecord
mark_completed h key owner_token reference result s =
    complete_from h key owner_token reference result (lookup key s.records) s

unfoldable pub in_memory_backend : Host → IdempotencyBackend InMemoryIdempotencyBackend
in_memory_backend h = record {
  claim = claim h;
  get_record = get_record;
  mark_completed = mark_completed h;
}
