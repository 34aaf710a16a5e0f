-- ===== src/Pool/Runs/Bounded.antt =====
-- A pool whose policy allows a number of failures in total: how many channels it opens, and when it closes,
-- whatever happens to it.
use lib_rabbit_job_queue.Common.{
  ◌+◌, ◌<◌, ◌≤◌, length, ◌≡◌, ◌∙◌, subst, true, some, List, String, arith, ◌⊎◌,
}
use lib_rabbit_job_queue.Common.Int.{ℤ, pos_part, uint_mod, to_uint}
use lib_rabbit_job_queue.Failure.Enforcer.{Enforcer, max, new_enforcer, max_total_failures}
use lib_rabbit_job_queue.Pool.State.{Broker, Pool, ok}
use lib_rabbit_job_queue.Pool.Checking.{library_checker}
use lib_rabbit_job_queue.Pool.Sound.{openings}
use lib_rabbit_job_queue.Pool.Runs.{Operation, perform_all}
use lib_rabbit_job_queue.Pool.Runs.Sound.{started-Grows, new_pool-IsSound}
use lib_rabbit_job_queue.Pool.Runs.Checker.{Checks, start_loop-Checks}
use lib_rabbit_job_queue.Pool.Sound.Kept.{Leaves}
use lib_rabbit_job_queue.Pool.{new_pool, start}
use lib_rabbit_job_queue.Pool.Runs.Counting.{
  asked, failures, counting, moved, perform_all-Staged, ended,
}

-- A started pool whose policy allows a number of failures in total, which is below the greatest `UInt`.
-- Whatever happens to it, in any order, and whatever the broker refuses: every operation comes to its end, the
-- pool is closing as soon as more consumers have shut down unexpectedly than the policy allows, and in all no
-- more channels are opened than the pool's size, one for each shutdown that the application asked for, and
-- one for each failure that the policy allows.
pub perform_all-max_total_failures :
    (broker : Broker) (m size : ℤ) (queue : String) (made started : Pool Enforcer)
    → new_pool size queue (new_enforcer (max_total_failures m)) ≡ some made
    → start broker made ≡ ok tt started
    → to_uint m + 1 < uint_mod
    → (os : List Operation)
    → (q : Pool Enforcer) × (perform_all broker library_checker os started ≡ some q)
      × ((q.closing ≡ true) ⊎ (failures os ≤ to_uint m))
      × (length (openings q.log) ≤ pos_part size + asked os + to_uint m)
unfolding start new_pool new_enforcer
perform_all-max_total_failures broker m size queue made started new ran small os =
    let k = to_uint m in
    let e = new_enforcer (max_total_failures m) in
    let (s, few) = started-Grows broker library_checker size queue e made started new ran in
    let none_yet = (new_pool-IsSound broker library_checker size queue e made new).1 in
    let checker : made.checker ≡ max k 0 = ground (arith, new) in
    let kept =
      subst (Leaves (Checks made.checker)) ran
        (start_loop-Checks broker (pos_part made.pool_size) made) in
    let (q, d, sound, last) =
      perform_all-Staged broker k (pos_part size) small 0 0 os started s
        (counting (omega arith) (kept ∙ checker) (omega (arith, few, none_yet))) in
    let (closed_or_few, bound) =
      ended broker k (pos_part size) small (asked os) (failures os) q sound (
        moved broker k (pos_part size) small (0 + asked os) (asked os) (0 + failures os)
          (failures os) q (omega arith) (omega arith) last) in
    (q, d, closed_or_few, bound)
