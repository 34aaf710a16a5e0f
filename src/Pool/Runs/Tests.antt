-- ===== src/Pool/Runs/Tests.antt =====
-- A pool of three executors, whose first, second and last executors lose their consumers before it is
-- stopped.
use lib_rabbit_job_queue.Common.{
  ℕ, ◌+◌, ◌≤◌, ◌≡◌, refl, true, false, Option, none, some, List, [], ◌∷◌, length, ltb, ◌⊎◌, arith,
}
use lib_rabbit_job_queue.Common.Int.{pos}
use lib_rabbit_job_queue.Common.Int.{to_uint}
use lib_rabbit_job_queue.Failure.Enforcer.{Enforcer, new_enforcer, max_total_failures}
use lib_rabbit_job_queue.Pool.Checking.{library_checker}
use lib_rabbit_job_queue.Pool.Runs.Bounded.{perform_all-max_total_failures}
use lib_rabbit_job_queue.Pool.State.{
  Ref, FailureChecker, Readings, Broker, Pool, Run, ok, throw, out_of_fuel, no_executor,
}
use lib_rabbit_job_queue.Pool.Chain.{Chain, IsDistinct}
use lib_rabbit_job_queue.Pool.Sound.{openings, subscriptions}
use lib_rabbit_job_queue.Pool.Runs.{Operation, shuts_down, stops, perform_all}
use lib_rabbit_job_queue.Pool.Runs.Sound.{perform_all_ends, perform_all-openings}
use lib_rabbit_job_queue.Pool.Runs.Closed.{perform_all-StaysClosed}
use lib_rabbit_job_queue.Pool.{
  new_pool, start, start_loop, add_new, create_new, init, add, on_consumer_shutdown, replace,
  remove, remove_head, remove_tail, remove_inner, stop_executor, stop, stop_executors, stop_loop,
}

abbrev willing : Broker
willing = record { opens = λ _. true; consumes = λ _. true }

-- A checker that halts at the third failure.
abbrev patient : FailureChecker ℕ
patient = record { mark = λ _ n. n + 1; halt = λ _ n. (ltb 2 n, n); tells = λ _ n. (true, n) }

abbrev at_once : Readings
at_once = record { marked = pos 1000; asked = pos 1000; told = pos 1000 }

abbrev made : Pool ℕ
made = record {
  pool_size = pos 3;
  queue_name = "jobs";
  checker = 0;
  closing = false;
  head = none;
  tail = none;
  counter = 0;
  executors = λ _. no_executor;
  requests = 0;
  log = [];
}

abbrev pool_or : {E A : Type 0} → Pool E → Run E A → Pool E
pool_or q (ok a p) = p
pool_or q (throw e p) = p
pool_or q out_of_fuel = q

abbrev or_made : Option (Pool ℕ) → Pool ℕ
or_made none = made
or_made (some p) = p

-- The third callback throws.
abbrev day : List Operation
day =
    shuts_down at_once true 0
    ∷ shuts_down at_once true 2
    ∷ shuts_down at_once false 4
    ∷ stops true (pos 5) true false false
    ∷ shuts_down at_once true 1
    ∷ []

perform_all_ends_example :
    (q : Pool ℕ) × (perform_all willing patient day (pool_or made (start willing made)) ≡ some q)
    × ((xs : List Ref) × Chain q.executors q.head xs × IsDistinct xs)
unfolding new_pool start start_loop add_new create_new init add
perform_all_ends_example =
    perform_all_ends willing patient (pos 3) "jobs" 0 made (pool_or made (start willing made)) refl
      refl day

abbrev ended : Pool ℕ
ended = or_made (perform_all willing patient day (pool_or made (start willing made)))

perform_all-openings_example :
    IsDistinct (openings ended.log)
    × IsDistinct (subscriptions ended.log)
    × (length (openings ended.log) ≤ 7)
unfolding new_pool start start_loop add_new create_new init add perform_all on_consumer_shutdown
    replace remove remove_head remove_tail remove_inner stop_executor stop stop_executors stop_loop
perform_all-openings_example =
    perform_all-openings willing patient (pos 3) "jobs" 0 made (pool_or made (start willing made))
      refl refl day ended refl

abbrev stopped : Pool ℕ
stopped = record made { closing = true }

perform_all-StaysClosed_example :
    (q : Pool ℕ) × (perform_all willing patient day stopped ≡ some q)
    × (q.closing ≡ true)
    × (openings q.log ≡ openings stopped.log)
perform_all-StaysClosed_example = perform_all-StaysClosed willing patient day stopped refl

-- Three channels at first, and one for each of the first three callbacks.
six_opened : openings ended.log ≡ 5 ∷ 4 ∷ 3 ∷ 2 ∷ 1 ∷ 0 ∷ []
unfolding new_pool start start_loop add_new create_new init add perform_all on_consumer_shutdown
    replace remove remove_head remove_tail remove_inner stop_executor stop stop_executors stop_loop
six_opened = refl

-- A policy that allows one failure in total.
abbrev strict : Enforcer
strict = new_enforcer (max_total_failures (pos 1))

abbrev strict_pool : Pool Enforcer
strict_pool = record {
  pool_size = pos 3;
  queue_name = "jobs";
  checker = strict;
  closing = false;
  head = none;
  tail = none;
  counter = 0;
  executors = λ _. no_executor;
  requests = 0;
  log = [];
}

abbrev strict_started : Pool Enforcer
strict_started = pool_or strict_pool (start willing strict_pool)

abbrev bad_day : List Operation
bad_day =
    shuts_down at_once false 0
    ∷ shuts_down at_once true 1
    ∷ shuts_down at_once false 2
    ∷ shuts_down at_once false 4
    ∷ []

perform_all-max_total_failures_example :
    (q : Pool Enforcer) × (perform_all willing library_checker bad_day strict_started ≡ some q)
    × ((q.closing ≡ true) ⊎ (3 ≤ 1))
    × (length (openings q.log) ≤ 5)
unfolding new_pool start start_loop add_new create_new init add new_enforcer to_uint
perform_all-max_total_failures_example =
    perform_all-max_total_failures willing (pos 1) (pos 3) "jobs" strict_pool strict_started refl
      refl (omega arith) bad_day
