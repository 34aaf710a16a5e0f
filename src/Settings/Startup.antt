-- ===== src/Settings/Startup.antt =====
-- What a configuration is worth when the queue executor starts: the pool that it makes, and the
-- failure enforcer where no policy is set.
use lib_rabbit_job_queue.Common.{
  ◌^◌, ◌*◌, ◌≡◌, ◌↔◌, false, none, List, [], String, ap, ◌∙◌, subst, sym,
}
use lib_rabbit_job_queue.Common.Int.{ℤ, pos, ◌<ℤ◌, ◌+ℤ◌}
use lib_rabbit_job_queue.Common.Duration.{nanos_per_second}
use lib_rabbit_job_queue.Failure.Enforcer.{max_failures_within, get_or_create_failure_enforcer}
use lib_rabbit_job_queue.Failure.Enforcer.Refinement.{Call, run, expected, IsChronological}
use lib_rabbit_job_queue.Failure.Enforcer.Default.{run-default}
use lib_rabbit_job_queue.Pool.{new_pool}
use lib_rabbit_job_queue.Pool.Started.{new_pool-none}
use lib_rabbit_job_queue.Settings.{
  ExecutorConfig, ExecutorSetting, workers, set_executor, set_executors, new_executor_config,
}
use lib_rabbit_job_queue.Settings.Checks.{new_executor_config-workers, set_workers}

-- A number of workers that the setter accepts is refused by the pool exactly when it is above 64.
pub workers-new_pool :
    {E : Type 0} (w : ℤ) (c : ExecutorConfig) (queue : String) (checker : E)
    → (set_executor (workers w) c).0 ≡ false
    → (new_pool (set_executor (workers w) c).1.workers queue checker ≡ none) ↔ (pos 64 <ℤ w)
workers-new_pool w c queue checker h =
    let (same, legal) = set_workers w c h in
    subst (λ n. (new_pool n queue checker ≡ none) ↔ (pos 64 <ℤ w)) (sym same)
      (new_pool-none w queue checker legal)

-- Without a failure policy, an executor with less than 2 ^ 30 workers follows the policy of at most
-- twice as many failures within two seconds as it has workers, whatever else has been set.
pub get_or_create_failure_enforcer-default :
    (ss : List ExecutorSetting) (calls : List (ℤ × Call))
    → (set_executors ss new_executor_config).failure_policy ≡ none
    → (set_executors ss new_executor_config).workers <ℤ pos (2 ^ 30)
    → IsChronological (pos 0) calls
    → run
        (get_or_create_failure_enforcer
          (set_executors ss new_executor_config).failure_policy
          (set_executors ss new_executor_config).workers)
        calls
      ≡ expected
          (max_failures_within
            ((set_executors ss new_executor_config).workers
              +ℤ (set_executors ss new_executor_config).workers)
            (pos (2 * nanos_per_second)))
          []
          calls
get_or_create_failure_enforcer-default ss calls n b h =
    let w = (set_executors ss new_executor_config).workers in
    ap (λ p. run (get_or_create_failure_enforcer p w) calls) n
    ∙ run-default w calls (new_executor_config-workers ss) b h
