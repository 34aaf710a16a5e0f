-- ===== src/Pool/Tests.antt =====
-- A pool of three executors, at which the theorems about the pool are applied.
use lib_rabbit_job_queue.Common.{
  ℕ, zero, suc, ◌+◌, ◌≡◌, refl, true, false, Option, none, some, List, [], ◌∷◌, arith, ltb,
}
use lib_rabbit_job_queue.Common.Int.{ℤ, pos, ◌-ℤ◌, wrap_long}
use lib_rabbit_job_queue.Failure.Counter.{inc, prune, cutoff_at, count, exceeds}
use lib_rabbit_job_queue.Failure.Enforcer.{
  Policy, max_total_failures, Enforcers, any, windowed, nil, cons, new_enforcer, mark_failure,
  should_halt,
}
use lib_rabbit_job_queue.Failure.Enforcer.Refinement.{halts, new_enforcer-Follows}
use lib_rabbit_job_queue.Pool.State.{
  Ref, Executor, FailureChecker, Readings, Broker, Pool, Returns, Throws, null_pointer, throw,
  no_executor, no_reason, forced,
}
use lib_rabbit_job_queue.Pool.Chain.{IsLinked}
use lib_rabbit_job_queue.Pool.Started.{upto, served, start-Started}
use lib_rabbit_job_queue.Pool.Replacing.{Replaced, shutdown_first, shutdown_between}
use lib_rabbit_job_queue.Pool.Losing.{Lost, shutdown_last}
use lib_rabbit_job_queue.Pool.Stopping.{
  closes, Holds, Stopped, killed, stop_code, stop_log, stop_now-forced, stop_lem,
}
use lib_rabbit_job_queue.Pool.Checking.{
  library_checker, Outcome, shutdown_enforced, shutdown_unexplained,
}
use lib_rabbit_job_queue.Pool.{new_pool, start, on_consumer_shutdown, stop, stop_now}

abbrev willing : Broker
willing = record { opens = λ _. true; consumes = λ _. true }

-- A checker that halts at the third failure.
abbrev patient : FailureChecker ℕ
patient = record { mark = λ _ n. n + 1; halt = λ _ n. (ltb 2 n, n); tells = λ _ n. (true, n) }

abbrev linked_to : ℕ → Option Ref → Executor
linked_to n next = record {
  id = record { queue = "jobs"; number = n + 1 };
  prev = none;
  next = next;
}

abbrev store : Ref → Executor
store zero = linked_to 0 (some 1)
store (suc zero) = linked_to 1 (some 2)
store (suc (suc n)) = linked_to (n + 2) none

abbrev pool : {E : Type 0} → E → Pool E
pool checker = record {
  pool_size = pos 3;
  queue_name = "jobs";
  checker = checker;
  closing = false;
  head = some 0;
  tail = some 2;
  counter = 3;
  executors = store;
  requests = 3;
  log = served 0 3 [];
}

abbrev three : Pool ℕ
three = pool 0

pool-IsLinked : {E : Type 0} (checker : E) → IsLinked (pool checker) (upto 0 3)
pool-IsLinked checker = record {
  chain = (refl, (refl, (refl, refl)));
  ends = refl;
  distinct = (refl, (refl, (refl, tt)));
  made = (omega arith, (omega arith, (omega arith, tt)));
  room = omega arith;
  alone = (refl, (refl, (refl, tt)));
}

pool-Holds : {E : Type 0} (checker : E) → Holds (pool checker) (upto 0 3)
pool-Holds checker = record {
  chain = (refl, (refl, (refl, refl)));
  distinct = (refl, (refl, (refl, tt)));
  room = omega arith;
}

abbrev at_once : Readings
at_once = record { marked = pos 1000; asked = pos 1000; told = pos 1000 }

abbrev fresh : Pool ℕ
fresh = record three {
  head = none;
  tail = none;
  counter = 0;
  executors = λ _. no_executor;
  requests = 0;
  log = [];
}

start-Started_example :
    Returns
      (λ _ q. IsLinked q (upto 0 3) × (q.log ≡ served 0 3 []) × (q.closing ≡ false))
      (start willing fresh)
unfolding new_pool
start-Started_example = start-Started willing (λ _. refl) (λ _. refl) (pos 3) "jobs" 0 refl

shutdown_first_example :
    Returns
      (λ _ r. IsLinked r (1 ∷ 2 ∷ 3 ∷ []) × Replaced 0 3 three.log r.log)
      (on_consumer_shutdown willing patient at_once false 0 three)
shutdown_first_example =
    shutdown_first willing patient at_once false three refl refl refl refl 0 (1 ∷ 2 ∷ [])
      (pool-IsLinked {E = ℕ} 0)

shutdown_between_example :
    Returns
      (λ _ r. IsLinked r (0 ∷ 1 ∷ 2 ∷ 3 ∷ []) × Replaced 1 3 three.log r.log)
      (on_consumer_shutdown willing patient at_once false 1 three)
shutdown_between_example =
    shutdown_between willing patient at_once false three refl refl refl refl 1 (upto 0 3)
      (pool-IsLinked {E = ℕ} 0) refl (λ e. cc) (λ e. cc)

shutdown_last_example :
    Throws null_pointer
      (Lost 2 3 (upto 0 3) three.log)
      (on_consumer_shutdown willing patient at_once false 2 three)
shutdown_last_example =
    shutdown_last willing patient at_once false three 0 1 (2 ∷ []) refl refl refl refl
      (pool-IsLinked {E = ℕ} 0)

stop_now-forced_example :
    Returns
      (λ code q. (code ≡ forced) × Stopped (killed true (closes (upto 0 3) three.log)) q)
      (stop_now true three)
stop_now-forced_example = stop_now-forced three (upto 0 3) (pool-Holds {E = ℕ} 0) refl true

stop_lem_example :
    Returns
      (λ code q.
        (code ≡ stop_code true false false)
        × Stopped (stop_log true (pos 5) true false (closes (upto 0 3) three.log)) q)
      (stop true (pos 5) true false false three)
stop_lem_example =
    stop_lem three (upto 0 3) (pool-Holds {E = ℕ} 0) refl true (pos 5) true false false

-- The first failure is one too many.
abbrev strict : Policy
strict = max_total_failures (pos 0)

shutdown_enforced_example :
    Outcome willing 1
      (pool (new_enforcer strict))
      (upto 0 3)
      at_once
      (halts strict (pos 1000) (pos 1000 ∷ []))
shutdown_enforced_example =
    shutdown_enforced willing at_once 1 (pool (new_enforcer strict))
      (new_enforcer-Follows strict tt) (omega arith) (refl, omega arith) (omega arith)
      (refl, omega arith) (upto 0 3) (pool-Holds (new_enforcer strict)) refl refl

-- A window of one second, in which no failure is allowed, and a clock that moves on by two seconds
-- between `shouldHalt` and `reason`.
abbrev window : List ℤ → Enforcers
window marks =
    cons (windowed 0 (pos 1_000_000_000) (record { entries = marks; max_delta = pos 1000 })) nil

abbrev slow : Readings
slow = record { marked = pos 5000; asked = pos 5000; told = pos 7000 }

shutdown_unexplained_example :
    on_consumer_shutdown willing library_checker slow false 1 (pool (any (window [])))
    ≡ throw no_reason (record (pool (any (window []))) { checker = any (window []) })
unfolding mark_failure should_halt inc prune cutoff_at count exceeds wrap_long ◌-ℤ◌
shutdown_unexplained_example =
    shutdown_unexplained willing slow 1 (pool (any (window []))) (window [])
      (window (pos 5000 ∷ [])) refl refl refl
