-- ===== src/Outbox/Tests.antt =====
-- Tests of the outbox, and its theorems at concrete inputs.
use agent_actum.Base.{
  List, ℕ, nat_eq, ◌≡◌, refl, ap, subst, false, Option, none, some, [], ◌∷◌, lookup, arith,
}
use agent_actum.Samples.{host, strict_host}
use agent_actum.Model.Json.{str, null, other, end}
use agent_actum.Model.Exec.{ok, err, validation, ◌>>=◌, pure}
use agent_actum.Ledger.Models.{Ledger, emit}
use agent_actum.Ledger.Memory.{InMemoryLedger, empty as empty_ledger}
use agent_actum.Outbox.Models.{OutboxOperation, staged, released, validate_status_fields}
use agent_actum.Outbox.Memory.{
  OutboxCall, OutboxHandler, InMemoryOutboxBackend, empty, StageArguments, stage, release,
  release_all, release_each, list_operations, staged_operations, append_event,
}
use agent_actum.Outbox.Entries.{WellFormed}
use agent_actum.Outbox.Steps.{here, next, releases, releases_all, stages}
use agent_actum.Outbox.Once.{calls_of, released_once, Reach-WellFormed}
use agent_actum.Outbox.Batch.{SettledIn, sorted_results, release_all-SettledIn, release_again}

abbrev no_ledger : Option (Ledger InMemoryLedger)
no_ledger = none

abbrev sent : OutboxHandler
sent arguments calls = ok (str "sent")

-- It returns an object that is no JSON value, such as a set.
abbrev odd : OutboxHandler
odd arguments calls = ok (other false)

abbrev arguments : StageArguments
arguments = record { transaction_id = 9; operation_name = "email"; arguments = end; handler = sent }

abbrev email : OutboxOperation
email = record {
  operation_id = 100;
  transaction_id = 9;
  operation_name = "email";
  arguments = end;
  status = staged;
  staged_at = 1;
  released_at = none;
  output = null;
  error = none;
}

abbrev sent_email : OutboxOperation
sent_email = record email { status = released; released_at = some 2; output = str "sent" }

-- The outbox with the operation staged, and with it released.
abbrev with_handler : OutboxHandler → InMemoryOutboxBackend InMemoryLedger
with_handler handler = record {
  operations = (100, email) ∷ [];
  handlers = (100, handler) ∷ [];
  ledger = empty_ledger;
  drawn = 2;
  calls = [];
}

abbrev one_sent : InMemoryOutboxBackend InMemoryLedger
one_sent = record (with_handler sent) {
  operations = (100, sent_email) ∷ [];
  drawn = 3;
  calls = record { operation_id = 100; arguments = end } ∷ [];
}

stage_first : stage host no_ledger arguments (empty empty_ledger) ≡ (ok email, with_handler sent)
unfolding stage append_event emit ◌>>=◌ pure validate_status_fields
stage_first = refl

release_first : release host no_ledger 100 (with_handler sent) ≡ (ok sent_email, one_sent)
unfolding release append_event emit ◌>>=◌ pure validate_status_fields
release_first = refl

empty-WellFormed : WellFormed host (empty empty_ledger)
empty-WellFormed id o found = cc

one_staged-WellFormed : WellFormed host (with_handler sent)
one_staged-WellFormed = subst (WellFormed host) (ap (λ p. p.1) stage_first) (
    Reach-WellFormed host no_ledger (next here (stages arguments (empty empty_ledger)))
      empty-WellFormed)

Reach-WellFormed_example :
    WellFormed host
      (release_all host no_ledger 9 (stage host no_ledger arguments (empty empty_ledger)).1).1
Reach-WellFormed_example =
    Reach-WellFormed host no_ledger
      (next (next here (stages arguments (empty empty_ledger))) (releases_all 9 _)) empty-WellFormed

host_uuids : (m n : ℕ) → host.uuid4 m ≡ host.uuid4 n → m ≡ n
host_uuids m n e = omega arith

released_once_example :
    let u = (release_all host no_ledger 9 (release host no_ledger 100 one_sent).1).1 in
    (lookup 100 u.operations ≡ some sent_email)
    × (calls_of 100 u.calls ≡ calls_of 100 one_sent.calls)
released_once_example =
    released_once host no_ledger host_uuids 100 (with_handler sent) one_staged-WellFormed
      release_first (next (next here (releases 100 one_sent)) (releases_all 9 _))

release_all_first :
    release_all host no_ledger 9 (with_handler sent)
    ≡ (ok (record { transaction_id = 9; released = sent_email ∷ []; failed = [] }), one_sent)
unfolding release_all release_each release list_operations append_event emit ◌>>=◌ pure
    validate_status_fields
release_all_first = refl

release_all-SettledIn_example :
    (rs : List OutboxOperation) × SettledIn host no_ledger one_sent
      (staged_operations host no_ledger 9 (with_handler sent))
      rs
    × ((sent_email ∷ [], []) ≡ sorted_results host no_ledger rs)
release_all-SettledIn_example =
    release_all-SettledIn host no_ledger 9 (with_handler sent) one_sent _ release_all_first

release_again_example :
    let s = with_handler odd in
    let call : OutboxCall = record { operation_id = 100; arguments = end } in
    ((release strict_host no_ledger 100 s).0 ≡ err (validation "output"))
    × ((release strict_host no_ledger 100 (release strict_host no_ledger 100 s).1).1.calls
        ≡ call ∷ call ∷ [])
release_again_example =
    release_again strict_host no_ledger 100 (with_handler odd) email odd (other false) refl refl
      refl (λ calls. refl) refl
