-- ===== src/Ends/Executor.antt =====
-- JobQueueExecutor.kt and pools/exec/ExecutorPoolConfig.kt: the pool that a queue executor makes from its
-- configuration, its handlers and its shutdown.
pub mod Lifecycle
mod Tests
use lib_rabbit_job_queue.Common.{ℕ, ◌*◌, Bool, true, Option, none, some, List, [], String}
use lib_rabbit_job_queue.Common.Int.{ℤ, pos}
use lib_rabbit_job_queue.Common.Duration.{Duration}
use lib_rabbit_job_queue.Delivery.Handlers.{register}
use lib_rabbit_job_queue.Failure.Enforcer.{Enforcer, get_or_create_failure_enforcer}
use lib_rabbit_job_queue.Pool.State.{Broker, Pool, Run, ok, throw, out_of_fuel, and_then, done}
use lib_rabbit_job_queue.Pool.{new_pool, start, stop}
use lib_rabbit_job_queue.Ends.{QueueConfig}

-- The fields `config`, `handlers` and `executorPool`. The other settings of the pool, among them the
-- handlers and the maximal execution time, are what a delivery takes as its arguments.
pub record QueueExecutor (H : Type 0) : Type 0 where
  pub config : QueueConfig
  pub handlers : List H
  pub executor_pool : Pool Enforcer

-- What a constructor leaves: the object, or an exception.
pub data Constructed (H : Type 0) : Type 0 where
  constructed : QueueExecutor H → Constructed H
  failed : Constructed H

abbrev pub started : {H : Type 0} → QueueConfig → Run Enforcer (Unit {0}) → Constructed H
started config (ok u p) = constructed (record { config = config; handlers = []; executor_pool = p })
started config (throw e p) = failed
started config out_of_fuel = failed

abbrev pub start_made : {H : Type 0} → Broker → QueueConfig → Option (Pool Enforcer) → Constructed H
start_made broker config none = failed
start_made broker config (some p) = started config (start broker p)

-- `channelProvider`, `handlers` and `shutdownCB` are left out: they are references to the queue executor
-- itself, to its `dispatchQueue`, its `handlers` and its `abort`. A thread factory is known by a number.
pub record ExecutorPoolConfig : Type 0 where
  pub queue_name : String
  pub pool_size : ℤ
  pub max_job_time : Duration
  pub thread_factory : Option ℕ
  pub failure_checker : Enforcer
  pub timeout_cb : Option ℕ

pub pool_config : QueueConfig → ExecutorPoolConfig
pool_config config = record {
  queue_name = config.job_queue_name;
  pool_size = config.executor.workers;
  max_job_time = config.executor.max_job_execution_time;
  thread_factory = none;
  failure_checker =
      get_or_create_failure_enforcer config.executor.failure_policy config.executor.workers;
  timeout_cb = config.executor.job_timeout_callback;
}

abbrev pub make_pool : ExecutorPoolConfig → Option (Pool Enforcer)
make_pool c = new_pool c.pool_size c.queue_name c.failure_checker

-- The constructors.
pub new_queue_executor : {H : Type 0} → Broker → QueueConfig → Constructed H
unfolding pool_config
new_queue_executor broker config = start_made broker config (make_pool (pool_config config))

pub on_job : {H : Type 0} → H → QueueExecutor H → QueueExecutor H
on_job h x = record x { handlers = register h x.handlers }

-- The default of `killAfter`, 10 000 days.
abbrev pub ten_thousand_days : ℤ
ten_thousand_days = pos (10_000 * 24 * 60 * 60 * 1000)

-- `shutdown`, with the answers of the thread pool as `stop` takes them. The code that `stop` returns is
-- dropped.
pub shutdown :
    {H : Type 0} → (blocking terminated in_time : Bool) → QueueExecutor H → Run Enforcer (Unit {0})
shutdown blocking terminated in_time x =
    and_then (stop blocking ten_thousand_days true terminated in_time x.executor_pool) (λ _. done)
