-- ===== src/Execution/Runtime/Progress/Handling.antt =====
-- From the claim of the key to a successful result.
use agent_actum.Base.{
  ℕ, suc, ◌≡◌, ◌≤◌, refl, ap, true, Option, none, some, List, [], ◌∷◌, ◌++◌, arith,
}
use agent_actum.Model.Json.{Value, dumps}
use agent_actum.Model.Exec.{ok, pure, lift}
use agent_actum.Model.Host.{Host}
use agent_actum.Contracts.Registry.{RegisteredTool}
use agent_actum.Idempotency.Models.{IdempotencyClaim}
use agent_actum.Execution.Models.{ExecutionResult, execution_result, validate_result}
use agent_actum.Execution.Schema.{json_or_raise}
use agent_actum.Execution.Runtime.Defs.{
  Call, Handler, Runtime, World, Run, draw_from, complete_claim,
}
use agent_actum.Execution.Runtime.Invocation.{
  invoke, succeed, verify_postconditions, verify_output, handled, run_handler, started, start,
  check_preconditions,
}
use agent_actum.Execution.Runtime.Paths.{own_fields}
use agent_actum.Execution.Runtime.Preparation.{own_call}
use agent_actum.Execution.Runtime.Progress.{
  Success-bind, TakesEvents, ClockForward, Ready, From, From-note,
}

module _ {L I : Type 0} (h : Host) (rt : Runtime L I) (takes : TakesEvents h rt)
    (forward : ClockForward h rt) (run : Run) (k : ℕ) (started_at : run.started_at ≡ h.clock k)
    (claim : Option IdempotencyClaim) (i : I) where
  -- The backend takes the result under the claim, if there is one.
  abbrev pub Completable : Type 0
  Completable =
      (r : ExecutionResult) (w : World L I)
      → w.idempotency ≡ i
      → (u : World L I) × (complete_claim h rt claim r w ≡ (ok tt, u))

  constructed :
      (raw : Value) (n : ℕ)
      → h.json raw ≡ true
      → k ≤ n
      → execution_result h (own_fields run true (h.clock n) raw none (some true))
        ≡ ok (own_fields run true (h.clock n) raw none (some true))
  unfolding execution_result validate_result
  constructed raw n accepted le =
      let later : run.started_at ≤ h.clock n = rw started_at (forward k n le) in
      ground (arith, accepted, later)

  succeed-From :
      (raw : Value) (c : List Call)
      → Completable
      → dumps raw ≡ true
      → h.json raw ≡ true
      → From h rt raw c i k (succeed h rt run claim raw)
  unfolding succeed draw_from lift pure
  succeed-From raw c complete good accepted l n le =
      let w : World L I = record { ledger = l; idempotency = i; drawn = n; calls = c } in
      let w' : World L I = record w { drawn = suc n } in
      let r = own_fields run true (h.clock n) raw none (some true) in
      let later : k ≤ suc n = omega arith in
      Success-bind raw (draw_from h rt h.clock) _ w w' (h.clock n) refl (
        Success-bind raw (lift (json_or_raise "$" raw)) _ w' w' raw (rw good refl) (
          Success-bind raw (lift (execution_result h r)) _ w' w' r
            (ap (λ x. (x, w')) (constructed raw n accepted le))
            (From-note h rt raw run "execution_succeeded" _ none _ c i k takes
              (λ l' n' le'.
                let v : World L I = record w { ledger = l'; drawn = n' } in
                let (u, done) = complete r v refl in
                Success-bind raw (complete_claim h rt claim r) _ v u tt done
                  (r, u, refl, refl, refl))
              l (suc n) later)))

  module _ (tool : RegisteredTool Handler) (raw : Value) (c : List Call) (complete : Completable)
      (j : I) (ready : Ready h rt run tool raw c j) where
    abbrev after : List Call
    after = c ++ own_call h rt run ∷ []

    verify_output-From : From h rt raw after i k (verify_output h rt run claim tool.contract raw)
    unfolding verify_output verify_postconditions
    verify_output-From l n le =
        rw (ready.output_valid, ready.verified, verify_output)
          (succeed-From raw after complete ready.serialisable ready.accepted l n le)

    run_handler-From : From h rt raw c i k (run_handler h rt run claim tool)
    unfolding run_handler invoke
    run_handler-From l n le =
        let w : World L I = record { ledger = l; idempotency = i; drawn = n; calls = c } in
        Success-bind raw (invoke h rt run tool) (handled h rt run claim tool.contract) w
          (record w { calls = after }) (ok raw) (rw ready.answers refl) (verify_output-From l n le)

    pub check_preconditions-From : From h rt raw c i k (check_preconditions h rt run claim tool)
    unfolding check_preconditions start
    check_preconditions-From l n le = rw ready.prepared (
        From-note h rt raw run "execution_started" _ none (started h rt run claim tool) c i k takes
          run_handler-From l n le)
