-- ===== src/Compensation/Summary.antt =====
-- The status that the coordinator reports, described by what was left and what failed.
use agent_actum.Base.{
  ◌≡◌, refl, Bool, true, false, not, ◌||◌, Bool-cases, inl, inr, List, [], ◌∷◌, is_empty, any, all,
  arith,
}
use agent_actum.Execution.Models.{ExecutionResult}
use agent_actum.Compensation.Models.{
  CompensationResult, CompensationSummaryStatus, not_required, compensated, partially_compensated,
  failed,
}
use agent_actum.Compensation.Coordinator.{summarize_status}

-- Whether an attempt failed.
abbrev pub some_failed : List CompensationResult → Bool
some_failed results = any (λ r. not r.succeeded) results

abbrev pub some_succeeded : List CompensationResult → Bool
some_succeeded results = any (λ r. r.succeeded) results

-- The meaning of each status.
abbrev pub Meaning :
    CompensationSummaryStatus → List CompensationResult → List ExecutionResult → Type 0
Meaning not_required results left = (is_empty results ≡ true) × (is_empty left ≡ true)
Meaning compensated results left =
    (some_succeeded results ≡ true) × (some_failed results ≡ false) × (is_empty left ≡ true)
Meaning partially_compensated results left =
    (some_succeeded results ≡ true) × ((some_failed results || not (is_empty left)) ≡ true)
Meaning failed results left =
    (some_succeeded results ≡ false) × ((some_failed results || not (is_empty left)) ≡ true)

all_succeeded :
    (results : List CompensationResult) → all (λ r. r.succeeded) results ≡ not (some_failed results)
all_succeeded [] = refl
all_succeeded (r ∷ rs) = ground (arith, all_succeeded rs)

some_result :
    (results : List CompensationResult)
    → is_empty results ≡ false
    → (some_succeeded results || some_failed results) ≡ true
some_result [] h = cc
some_result (r ∷ rs) h = ground arith

-- The reported status means what it says: NOT_REQUIRED, that nothing was attempted and nothing
-- left; COMPENSATED, that an attempt succeeded, none failed and nothing was left;
-- PARTIALLY_COMPENSATED, that an attempt succeeded, and one failed or something was left; FAILED,
-- that none succeeded, and one failed or something was left.
pub summarize_status-Meaning :
    (results : List CompensationResult) (left : List ExecutionResult)
    → Meaning (summarize_status results left) results left
unfolding summarize_status
summarize_status-Meaning [] [] = (refl, refl)
summarize_status-Meaning [] (x ∷ left) = (refl, refl)
summarize_status-Meaning (r ∷ rs) (x ∷ left) = elim (Bool-cases (some_succeeded (r ∷ rs))) [
  | inl one ↦ rw one (one, ground arith)
  | inr none_did ↦ rw none_did (none_did, ground arith)
]
summarize_status-Meaning (r ∷ rs) [] = elim (Bool-cases (all (λ q. q.succeeded) (r ∷ rs))) [
  | inl every ↦ rw every (
    ground (arith, all_succeeded (r ∷ rs), some_result (r ∷ rs) refl),
    ground (arith, all_succeeded (r ∷ rs)),
    refl,
  )
  | inr not_every ↦ elim (Bool-cases (some_succeeded (r ∷ rs))) [
    | inl one ↦ rw (not_every, one) (one, ground (arith, all_succeeded (r ∷ rs)))
    | inr none_did ↦ rw (not_every, none_did) (none_did, ground (arith, all_succeeded (r ∷ rs)))
  ]
]
