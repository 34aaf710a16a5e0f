-- ===== src/Ends/Executor/Tests.antt =====
-- A queue executor with three workers, at which the theorem about its life is applied.
use lib_rabbit_job_queue.Common.{ℕ, ◌≡◌, refl, true, false, List, [], ◌∷◌, arith}
use lib_rabbit_job_queue.Common.Int.{pos}
use lib_rabbit_job_queue.Settings.{new_executor_config}
use lib_rabbit_job_queue.Ends.{new_queue_config}
use lib_rabbit_job_queue.Settings.{ExecutorSetting, workers, set_executor, set_executors}
use lib_rabbit_job_queue.Pool.State.{Broker, Returns, opened, consuming, closed}
use lib_rabbit_job_queue.Pool.Stopping.{Stopped, stop_log}
use lib_rabbit_job_queue.Ends.Executor.{
  QueueExecutor, constructed, new_queue_executor, shutdown, ten_thousand_days,
}
use lib_rabbit_job_queue.Ends.Executor.Lifecycle.{shutdown-new_queue_executor}
use lib_rabbit_job_queue.Ends.{QueueConfig}

abbrev willing : Broker
willing = record { opens = λ x. true; consumes = λ x. true }

abbrev settings : List ExecutorSetting
settings = workers (pos 0) ∷ workers (pos 3) ∷ []

abbrev three_workers : QueueConfig
three_workers = record new_queue_config { executor = set_executors settings new_executor_config }

-- The threads do not end in ten thousand days.
shutdown-new_queue_executor_example :
    (x : QueueExecutor ℕ) × (new_queue_executor willing three_workers ≡ constructed x)
    × Returns
        (λ _ q.
          Stopped
            (stop_log true ten_thousand_days true false (
              closed 2
              ∷ closed 1
              ∷ closed 0
              ∷ consuming 2
              ∷ opened 2
              ∷ consuming 1
              ∷ opened 1
              ∷ consuming 0
              ∷ opened 0
              ∷ []))
            q)
        (shutdown true false false x)
unfolding new_queue_config new_executor_config set_executors set_executor
shutdown-new_queue_executor_example =
    shutdown-new_queue_executor willing (λ x. refl) (λ x. refl) three_workers settings refl
      (omega arith) true false false
