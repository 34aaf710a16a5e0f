-- ===== src/Pool/Runs.antt =====
-- Everything that can happen to a pool once it has been started, in any order.
pub mod Sound
pub mod Closed
pub mod Checker
pub mod Counting
pub mod Bounded
mod Tests
use lib_rabbit_job_queue.Common.{ℕ, ◌+◌, Bool, Option, none, some, List, [], ◌∷◌}
use lib_rabbit_job_queue.Common.Int.{ℤ}
use lib_rabbit_job_queue.Pool.State.{
  Ref, FailureChecker, Readings, Broker, Pool, Run, ok, throw, out_of_fuel,
}
use lib_rabbit_job_queue.Pool.{on_consumer_shutdown, stop, stop_now}

-- The callback of a consumer, or a call of `stop` or `stopNow`, with its readings of the clock and the
-- answers of the threads.
pub data Operation : Type 0 where
  shuts_down : Readings → (initiated_by_application : Bool) → Ref → Operation
  stops : (block : Bool) → ℤ → (block_after_kill terminated in_time : Bool) → Operation
  stops_now : Bool → Operation

-- The pool after a run, whether it returns or throws; nothing where the fuel runs out.
abbrev pub left_by : {E A : Type 0} → Run E A → Option (Pool E)
left_by (ok a p) = some p
left_by (throw e p) = some p
left_by out_of_fuel = none

-- How many of the operations are callbacks.
abbrev pub counted : Operation → ℕ
counted (shuts_down t asked x) = 1
counted (stops block k after terminated in_time) = 0
counted (stops_now block) = 0

abbrev pub callbacks : List Operation → ℕ
callbacks [] = 0
callbacks (o ∷ os) = counted o + callbacks os

module _ {E : Type 0} (broker : Broker) (c : FailureChecker E) where
  abbrev pub perform : Operation → Pool E → Option (Pool E)
  perform (shuts_down t asked x) p = left_by (on_consumer_shutdown broker c t asked x p)
  perform (stops block k after terminated in_time) p =
      left_by (stop block k after terminated in_time p)
  perform (stops_now block) p = left_by (stop_now block p)

  abbrev pub or_stuck : Option (Pool E) → (Pool E → Option (Pool E)) → Option (Pool E)
  or_stuck none k = none
  or_stuck (some p) k = k p

  unfoldable pub perform_all : List Operation → Pool E → Option (Pool E)
  perform_all [] p = some p
  perform_all (o ∷ os) p = or_stuck (perform o p) (perform_all os)
