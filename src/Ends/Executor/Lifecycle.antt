-- ===== src/Ends/Executor/Lifecycle.antt =====
-- A queue executor from its construction to its shutdown.
use lib_rabbit_job_queue.Common.{
  ◌≡◌, refl, ap, ◌∙◌, sym, subst, Bool, true, some, List, [], String, Option-cases, arith, inl, inr,
}
use lib_rabbit_job_queue.Common.Int.{ℤ, pos, pos_part, ◌≤ℤ◌}
use lib_rabbit_job_queue.Failure.Enforcer.{get_or_create_failure_enforcer}
use lib_rabbit_job_queue.Pool.State.{
  Ref, Broker, Pool, Run, ok, Returns, Returns-bind, returns, and_then, done,
}
use lib_rabbit_job_queue.Pool.{new_pool, stop}
use lib_rabbit_job_queue.Pool.Chain.{IsLinked}
use lib_rabbit_job_queue.Pool.Started.{upto, served, start-Started, new_pool-none}
use lib_rabbit_job_queue.Pool.Stopping.{Holds, Stopped, closes, stop_log, stop_lem}
use lib_rabbit_job_queue.Settings.{ExecutorSetting, set_executors, new_executor_config}
use lib_rabbit_job_queue.Settings.Checks.{new_executor_config-workers}
use lib_rabbit_job_queue.Ends.{QueueConfig}
use lib_rabbit_job_queue.Ends.Executor.{
  QueueExecutor, constructed, start_made, started, new_queue_executor, shutdown, ten_thousand_days,
}

-- A run that returns has a result.
returned :
    {E A : Type 0} {P : A → Pool E → Type 0} {r : Run E A}
    → Returns P r
    → (a : A) × (p : Pool E) × (r ≡ ok a p) × P a p
returned (returns h) = (_, _, refl, h)

-- A pool of a legal size can be made.
new_pool-made :
    {E : Type 0} (size : ℤ) (queue : String) (checker : E)
    → pos 1 ≤ℤ size
    → size ≤ℤ pos 64
    → (p : Pool E) × (new_pool size queue checker ≡ some p)
new_pool-made size queue checker low high = elim (Option-cases (new_pool size queue checker)) [
  | inl e ↦ absurd (omega (arith, (new_pool-none size queue checker low).0 e))
  | inr made ↦ made
]

IsLinked-Holds : {E : Type 0} (p : Pool E) (xs : List Ref) → IsLinked p xs → Holds p xs
IsLinked-Holds p xs l = record { chain = l.chain; distinct = l.distinct; room = l.room }

module _ {H : Type 0} (broker : Broker) (opens : (x : Ref) → broker.opens x ≡ true)
    (consumes : (x : Ref) → broker.consumes x ≡ true) where
  -- A queue executor whose executor settings were set with at most 64 workers, and whose broker refuses nothing, can
  -- be constructed; it then opens as many channels as it has workers, each once and in order, and a
  -- shutdown returns, closes each of them once, asks the threads to end, and waits if it is blocking: if they
  -- do not end in time it kills them and waits on.
  pub shutdown-new_queue_executor :
      (config : QueueConfig) (ss : List ExecutorSetting)
      → config.executor ≡ set_executors ss new_executor_config
      → config.executor.workers ≤ℤ pos 64
      → (blocking terminated in_time : Bool)
      → (x : QueueExecutor H) × (new_queue_executor broker config ≡ constructed x)
        × Returns
            (λ _ q.
              Stopped
                (stop_log blocking ten_thousand_days true in_time (
                  closes
                    (upto 0 (pos_part config.executor.workers))
                    (served 0 (pos_part config.executor.workers) [])))
                q)
            (shutdown blocking terminated in_time x)
  unfolding new_queue_executor shutdown
  shutdown-new_queue_executor config ss e high blocking terminated in_time =
      let w = config.executor.workers in
      let low : pos 1 ≤ℤ w =
        subst (λ c. pos 1 ≤ℤ c.workers) (sym e) (new_executor_config-workers ss) in
      let checker = get_or_create_failure_enforcer config.executor.failure_policy w in
      let (p, made) = new_pool-made w config.job_queue_name checker low high in
      let (u, q, ran, (linked, log, open_still)) =
        returned (start-Started broker opens consumes w config.job_queue_name checker made) in
      let stopped =
        stop_lem q (upto 0 (pos_part w)) (IsLinked-Holds q (upto 0 (pos_part w)) linked) open_still
          blocking ten_thousand_days true terminated in_time in
      (
        record { config = config; handlers = []; executor_pool = q },
        ap (start_made broker config) made ∙ ap (started config) ran,
        subst
            (λ events.
              Returns
                (λ _ q'.
                  Stopped
                    (stop_log blocking ten_thousand_days true in_time
                      (closes (upto 0 (pos_part w)) events))
                    q')
                (and_then (stop blocking ten_thousand_days true terminated in_time q) (λ _. done)))
            log (Returns-bind stopped λ _ q' (_, s). returns s),
      )
