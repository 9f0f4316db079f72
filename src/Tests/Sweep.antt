-- ===== src/Tests/Sweep.antt =====
-- A sweep of the worker over one action that waits for its verification.
use agents_reality_layer.Prelude.{String, ℕ, All, [], ◌∷◌, ◌≡◌, refl}
use agents_reality_layer.Errors.{ok}
use agents_reality_layer.Actions.Service.Lifecycle.{pending_verifications}
use agents_reality_layer.WorldState.Service.{project}
use agents_reality_layer.WorldState.Service.Commit.{create_commit, latest_hash}
use agents_reality_layer.WorldState.Service.Ingest.{ingest, merge, compile, contradicts}
use agents_reality_layer.Worker.Verifier.{
  Attempt, verify_action, verify_loop, attempt_round, ingest_verification_read,
}
use agents_reality_layer.Worker.Verifier.Kept.{HasEnded}
use agents_reality_layer.Worker.Verifier.Sweep.{sweep, run_once, run_once-AllEnded}
use agents_reality_layer.Tests.Lifecycle.{program, worker, attempts, final_decision}
use agents_reality_layer.Tests.Samples.{py}

abbrev every : String → String → ℕ → Attempt
every tenant_id action_id = attempts

one_pending : pending_verifications worker.actions ≡ ("demo", "act_a") ∷ []
unfolding program pending_verifications
one_pending = refl

sweep_answers : (run_once py worker 3 every).0 ≡ ok (final_decision ∷ [])
unfolding program verify_action verify_loop attempt_round ingest_verification_read ingest merge
    compile project create_commit latest_hash contradicts sweep run_once pending_verifications
sweep_answers = refl

run_once-AllEnded_example :
    All
      (λ (t, i). HasEnded (run_once py worker 3 every).1.actions i)
      (pending_verifications worker.actions)
run_once-AllEnded_example = run_once-AllEnded py 3 every worker sweep_answers
