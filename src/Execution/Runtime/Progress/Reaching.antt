-- ===== src/Execution/Runtime/Progress/Reaching.antt =====
-- From the start of a run to the claim of the key, and the run as a whole.
use agent_actum.Base.{
  if◌then◌else◌, ℕ, suc, String, ◌≡◌, ◌≤◌, refl, sym, ap, subst, Option, none, some, List, arith,
}
use agent_actum.Model.Json.{Value, JsonObject}
use agent_actum.Model.Exec.{Exec}
use agent_actum.Model.Host.{Host}
use agent_actum.Contracts.Models.{ActionIntent}
use agent_actum.Contracts.Registry.{RegisteredTool}
use agent_actum.Policies.Engine.{evaluate}
use agent_actum.Execution.Models.{ExecutionResult}
use agent_actum.Execution.Runtime.Defs.{
  Call, Handler, Runtime, World, Run, with_draws, complete_claim,
}
use agent_actum.Execution.Runtime.Invocation.{check_preconditions}
use agent_actum.Execution.Runtime.Stages.{
  replay, claimed, claim_from_backend, claim_key, require_key, obey, consult, validate_input,
  match_contract, received, receive, execute,
}
use agent_actum.Execution.Runtime.Admission.{run_from, execute-receive}
use agent_actum.Execution.Runtime.Progress.{
  Success, Success-bind, TakesEvents, ClockForward, Ready, From, From-note,
}
use agent_actum.Execution.Runtime.Progress.Handling.{Completable, check_preconditions-From}
use agent_actum.Execution.Runtime.Progress.{Claimable}

module _ {L I : Type 0} (h : Host) (rt : Runtime L I) (takes : TakesEvents h rt)
    (forward : ClockForward h rt) (run : Run) (k : ℕ) (started_at : run.started_at ≡ h.clock k)
    (tool : RegisteredTool Handler) (raw : Value) (c : List Call) (i : I)
    (ready : Ready h rt run tool raw c i) where
  abbrev All : Exec (World L I) ExecutionResult → Type 0
  All m = From h rt raw c i k m

  unclaimed : (j : I) → Completable h rt takes forward run k started_at none j
  unfolding complete_claim
  unclaimed j r w _ = (w, refl)

  claim_key-From : (key : Option String) → Claimable h rt key i → All (claim_key h rt run tool key)
  unfolding claim_key complete_claim
  claim_key-From none _ l n le =
      check_preconditions-From h rt takes forward run k started_at none i tool raw c (unclaimed i) i
        ready l n le
  claim_key-From (some key) (claim, i', granted, acquired, completes) l n le =
      let w : World L I = record { ledger = l; idempotency = i; drawn = n; calls = c } in
      Success-bind raw (claim_from_backend h rt run key) (claimed h rt run tool) w
        (record w { idempotency = i' }) claim
        (ap (λ q. (q.0, record w { idempotency = q.1 })) granted)
        (subst
          (λ b. Success raw (
            let u = record w { idempotency = i' } in
            if b
            then check_preconditions h rt run (some claim) tool u
            else replay h rt run claim u))
          (sym acquired)
          (check_preconditions-From h rt takes forward run k started_at (some claim) i' tool raw c
            (λ r v same.
              let (m, i'', done) =
                completes (some (h.uuid_text r.execution_id)) (rt.model_dump r) in
              (record v { idempotency = i'' }, rw (same, done) refl))
            i ready l n le))

  require_key-From : All (require_key h rt run tool)
  unfolding require_key
  require_key-From l n le =
      rw ready.key_given (claim_key-From run.action.idempotency_key ready.claimable l n le)

  consult-From : All (consult h rt run tool)
  unfolding consult with_draws obey
  consult-From = From-note h rt raw run "contract_validated" none _ _ c i k takes λ l n le.
      let (d, n', decided, forth, allowed, approves) = ready.permitted n in
      let w : World L I = record { ledger = l; idempotency = i; drawn = n; calls = c } in
      let later : k ≤ n' = omega arith in
      Success-bind raw
        (with_draws h rt (evaluate h rt.policies run.action (some tool.contract) run.context)) _ w
        (record w { drawn = n' }) d (ap (λ q. (q.0, record w { drawn = q.1 })) decided)
        (From-note h rt raw run "policy_evaluated" none _ (λ _. obey h rt run tool d) c i k takes
          (λ l' m le'. rw (allowed, approves) (require_key-From l' m le')) l n' later)

  receive-From : All (receive h rt run)
  unfolding receive match_contract validate_input
  receive-From =
      From-note h rt raw run "action_received" none _ (received h rt run) c i k takes λ l n le.
        rw (ready.registered, ready.matches, ready.input_valid, validate_input)
          (consult-From l n le)

-- If the tool is registered and the action matches its contract, the arguments satisfy the input
-- schema, the policy engine answers with a decision that does not deny and is approved if it asks for
-- that, a required key is given and the backend lets the run acquire it and takes its result, all
-- checks pass, and the handler returns a JSON value that satisfies the output schema and that
-- pydantic accepts, then `execute` returns a result with `succeeded` whose output is that value;
-- where the ledger takes every event and the clock never goes back.
pub execute-Success :
    {L I : Type 0} (h : Host) (rt : Runtime L I) (action : ActionIntent) (context : JsonObject)
    (tool : RegisteredTool Handler) (raw : Value) (w : World L I)
    → TakesEvents h rt
    → ClockForward h rt
    → Ready h rt (run_from h action context w.drawn) tool raw w.calls w.idempotency
    → Success raw (execute h rt action context w)
execute-Success h rt action context tool raw w takes forward ready =
    let started : ℕ = suc (suc w.drawn) in
    let later : started ≤ suc started = omega arith in
    subst (Success raw) (sym (execute-receive h rt action context w)) (
      receive-From h rt takes forward (run_from h action context w.drawn) started refl tool raw
        w.calls w.idempotency ready w.ledger (suc started) later)
