-- ===== src/Idempotency/Memory/Tests.antt =====
-- Tests of the in-memory backend, and its theorems at concrete inputs.
use agent_actum.Base.{◌≡◌, refl, true, false, none, [], ◌∷◌, arith}
use agent_actum.Samples.{host}
use agent_actum.Model.Json.{str, null}
use agent_actum.Model.Exec.{ok, err, not_owner}
use agent_actum.Idempotency.Models.{
  IdempotencyRecord, in_progress, validate_completion, IdempotencyClaim,
}
use agent_actum.Idempotency.Memory.{
  InMemoryIdempotencyBackend, empty, claim, get_record, mark_completed,
}
use agent_actum.Idempotency.Memory.Claims.{Claimed, claim-Claimed, mark_completed_intruder}
use agent_actum.Idempotency.Memory.Slots.{
  claiming, completing, free, settled, slot, Moves, Reach-Moves,
}
use agent_actum.Idempotency.Memory.Runs.{
  here, next, completes, claims, StillHeld, Reach-keeps, claim_once,
}

-- The record of the first claim of `k`, and the backend behind that claim.
abbrev first_record : IdempotencyRecord
first_record = record {
  key = "k";
  owner_token = 100;
  status = in_progress;
  claimed_at = 1;
  completed_at = none;
  result_reference = none;
  result = null;
}

abbrev first_claim : IdempotencyClaim
first_claim = record { claimed = first_record; acquired = true }

abbrev held : InMemoryIdempotencyBackend
held = record { records = ("k", first_record) ∷ []; drawn = 2 }

first_claim_acquires : Claimed "k" empty first_claim held
unfolding claim validate_completion
first_claim_acquires = claim-Claimed host "k" empty first_claim held refl

-- Another token is refused, and nothing changes.
intruder_refused : mark_completed host "k" 5 none (str "done") held ≡ (err (not_owner "k"), held)
unfolding get_record
intruder_refused =
    mark_completed_intruder host "k" held 5 none (str "done") first_record refl (omega arith)

-- The owner completes, and another caller claims the key again.
abbrev later : InMemoryIdempotencyBackend
later = (claim host "k" (mark_completed host "k" 100 none (str "done") held).1).1

Reach-keeps_example : StillHeld "k" first_record later
unfolding get_record
Reach-keeps_example =
    Reach-keeps host "k" first_record
      (next (next here (completes "k" 100 none (str "done") held)) (claims "k" _)) refl

claim_once_example :
    (r : IdempotencyRecord) × (claim host "k" later
      ≡ (ok (record { claimed = r; acquired = false }), later))
    × (r.owner_token ≡ 100)
unfolding claim validate_completion
claim_once_example =
    claim_once host "k" empty {s' = held} {t = later} {c = first_claim} refl refl
      (next (next here (completes "k" 100 none (str "done") held)) (claims "k" _))

-- The key is claimed, another token tries to complete it, and its owner does.
Reach-Moves_example :
    Moves free (completing 100 (str "done") ∷ completing 5 (str "stolen") ∷ claiming ∷ []) (
      slot "k"
        (mark_completed host "k" 100 none
          (str "done")
          (mark_completed host "k" 5 none (str "stolen") (claim host "k" empty).1).1).1)
unfolding get_record
Reach-Moves_example = Reach-Moves host "k" (
    next (next (next here (claims "k" empty)) (completes "k" 5 none (str "stolen") _))
      (completes "k" 100 none (str "done") _))

-- It ends settled, by its owner and with the owner's result.
slot_settled :
    slot "k"
      (mark_completed host "k" 100 none
        (str "done")
        (mark_completed host "k" 5 none (str "stolen") (claim host "k" empty).1).1).1
    ≡ settled 100 (str "done")
unfolding get_record claim mark_completed validate_completion
slot_settled = refl
