-- ===== src/Worker/Verifier.antt =====
-- The loop of `VerifierWorker.verify_action`, which always ends the verification.
pub mod Ends
pub mod Kept
pub mod Sweep
use Prim.Native.String.{◌++◌ as append}
use agents_reality_layer.Prelude.{
  ℕ, zero, suc, String, Bool, true, false, ◌||◌, Option, none, some, if◌then◌else◌,
}
use agents_reality_layer.Prelude.Text.{remove_prefix}
use agents_reality_layer.Json.{Platform}
use agents_reality_layer.Errors.{Result, ok, err, ◌>>=◌}
use agents_reality_layer.Actions.Models.{ActionDecision}
use agents_reality_layer.Actions.Service.{ActionService, owned_action}
use agents_reality_layer.Actions.Service.Lifecycle.{terminal_verification}
use agents_reality_layer.Actions.Service.Lifecycle
use agents_reality_layer.WorldState.Models.{Observation, OrderState}
use agents_reality_layer.WorldState.Service.{WorldStateService}
use agents_reality_layer.WorldState.Service.Ingest.{Fresh, ingest}

-- What one attempt meets.
pub record Attempt : Type 0 where
  -- `self._normalizer.normalize(self._read_order(order_id))`
  pub read : String → Result Observation
  pub read_hex : String
  pub fresh : Fresh
  -- `self._monotonic() >= deadline`
  pub out_of_time : Bool
  pub event_hex : String

-- the two services that the worker drives
pub record Worker : Type 0 where
  pub actions : ActionService
  pub world_state : WorldStateService

-- the observation under an id of its own
abbrev pub renamed : Observation → String → Observation
renamed o hex = record o { observation_id = append o.observation_id (append "_verify_" hex) }

-- `_ingest_verification_read`, without a database
unfoldable pub ingest_verification_read :
    Platform → WorldStateService → String → String → Attempt → Result OrderState × WorldStateService
unfolding ingest
ingest_verification_read py s tenant_id order_id attempt = elim (attempt.read order_id) [
  | err e ↦ (err e, s)
  | ok o ↦
      ingest py s tenant_id (renamed o attempt.read_hex) "verification" "verified" attempt.fresh
]

-- one round of the loop, with the services it leaves
unfoldable pub attempt_round :
    Platform → Worker → String → String → String → Attempt → Bool → Result ActionDecision × Worker
unfolding ingest_verification_read Lifecycle.verify
attempt_round py w tenant_id action_id order_id attempt is_final =
    let (read, world_state) =
      ingest_verification_read py w.world_state tenant_id order_id attempt in
    elim read [
      | err e ↦ (err e, record w { world_state = world_state })
      | ok state ↦
          let (decision, actions) =
            Lifecycle.verify py w.actions action_id tenant_id (some state) is_final
              attempt.event_hex in
          (decision, record { actions = actions; world_state = world_state })
    ]

-- the loop: `later` rounds are left after this one
unfoldable pub verify_loop :
    Platform
    → Worker
    → String
    → String
    → String
    → (ℕ → Attempt)
    → ℕ
    → Result ActionDecision × Worker
unfolding attempt_round
verify_loop py w tenant_id action_id order_id attempts zero =
    attempt_round py w tenant_id action_id order_id (attempts zero) true
verify_loop py w tenant_id action_id order_id attempts (suc later) =
    let attempt = attempts (suc later) in
    let is_final = attempt.out_of_time in
    let (result, w') = attempt_round py w tenant_id action_id order_id attempt is_final in
    let next = verify_loop py w' tenant_id action_id order_id attempts later in
    elim result [
      | err e ↦ (err e, w')
      | ok decision ↦
          if terminal_verification decision.status
          then (ok decision, w')
          else if is_final
          then (ok decision, w')
          else next
    ]

-- `max(1, max_attempts)` rounds: the number after the first
abbrev pub rounds_after_first : ℕ → ℕ
rounds_after_first zero = zero
rounds_after_first (suc n) = n

-- `verify_action`; the attempts are numbered downwards, the last one by 0
unfoldable pub verify_action :
    Platform → Worker → String → String → ℕ → (ℕ → Attempt) → Result ActionDecision × Worker
unfolding verify_loop
verify_action py w tenant_id action_id max_attempts attempts =
    elim (owned_action w.actions action_id tenant_id) [
      | err e ↦ (err e, w)
      | ok action ↦
          verify_loop py w tenant_id action_id
            (remove_prefix "order:" action.proposal.target_entity) attempts
            (rounds_after_first max_attempts)
    ]
