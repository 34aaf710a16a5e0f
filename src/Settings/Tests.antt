-- ===== src/Settings/Tests.antt =====
-- Assignments to configurations, at which the theorems about them are applied.
use lib_rabbit_job_queue.Common.{ℕ, ◌*◌, ◌≡◌, ◌↔◌, refl, true, false, none, List, [], ◌∷◌, arith}
use lib_rabbit_job_queue.Common.Int.{ℤ, pos, ◌≤ℤ◌, ◌<ℤ◌, ◌+ℤ◌}
use lib_rabbit_job_queue.Common.Duration.{nanos_per_second}
use lib_rabbit_job_queue.Failure.Enforcer.{max_failures_within, get_or_create_failure_enforcer}
use lib_rabbit_job_queue.Failure.Enforcer.Refinement.{Call, marks, asks, run, expected}
use lib_rabbit_job_queue.Pool.{new_pool}
use lib_rabbit_job_queue.Settings.{
  is_blank, ConnectionSetting, hostname, host_port, set_connection, set_connections,
  new_connection_config, ExecutorSetting, workers, max_job_execution_time, set_executor,
  set_executors, new_executor_config,
}
use lib_rabbit_job_queue.Settings.Checks.{new_executor_config-workers, set_connection-blank}
use lib_rabbit_job_queue.Settings.Startup.{workers-new_pool, get_or_create_failure_enforcer-default}

abbrev ports : List ConnectionSetting
ports = host_port (pos 0) ∷ host_port (pos 5671) ∷ host_port (pos 70000) ∷ []

abbrev many : List ExecutorSetting
many = workers (pos 0) ∷ workers (pos 100) ∷ max_job_execution_time (pos 5) ∷ []

new_executor_config-workers_example : pos 1 ≤ℤ (set_executors many new_executor_config).workers
new_executor_config-workers_example = new_executor_config-workers many

set_connection-blank_example :
    ((set_connection (hostname " ") new_connection_config).0 ≡ false)
    × ((set_connections ports (set_connection (hostname " ") new_connection_config).1).hostname
        ≡ " ")
    × ((set_connection
          (hostname "rabbit")
          (set_connections ports (set_connection (hostname " ") new_connection_config).1)).0
        ≡ true)
unfolding is_blank new_connection_config
set_connection-blank_example =
    set_connection-blank new_connection_config " " "rabbit" ports refl refl

workers-new_pool_example :
    (new_pool {E = ℕ} (set_executor (workers (pos 100)) new_executor_config).1.workers "jobs" 0
      ≡ none)
    ↔ (pos 64 <ℤ pos 100)
unfolding set_executor
workers-new_pool_example = workers-new_pool {E = ℕ} (pos 100) new_executor_config "jobs" 0 refl

abbrev calls : List (ℤ × Call)
calls = (pos 1000, marks) ∷ (pos 1001, asks) ∷ []

get_or_create_failure_enforcer-default_example :
    run
      (get_or_create_failure_enforcer
        (set_executors many new_executor_config).failure_policy
        (set_executors many new_executor_config).workers)
      calls
    ≡ expected
        (max_failures_within
          ((set_executors many new_executor_config).workers
            +ℤ (set_executors many new_executor_config).workers)
          (pos (2 * nanos_per_second)))
        []
        calls
unfolding set_executors new_executor_config set_executor
get_or_create_failure_enforcer-default_example =
    get_or_create_failure_enforcer-default many calls refl (omega arith) (omega arith)
