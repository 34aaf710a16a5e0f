-- ===== src/Failure/Enforcer/Default.antt =====
-- ExecutorConfig.getOrCreateFailureEnforcer without a policy: the enforcer follows a policy all the
-- same, at most twice as many failures in two seconds as there are workers.
use lib_rabbit_job_queue.Common.{◌^◌, ◌*◌, ◌≡◌, none, List, [], refl, arith, subst}
use lib_rabbit_job_queue.Common.Int.{ℤ, pos, ◌≤ℤ◌, ◌<ℤ◌, ◌+ℤ◌, wrap_int, wrap_int_of_IsInt}
use lib_rabbit_job_queue.Common.Duration.{nanos_per_second, in_whole_milliseconds}
use lib_rabbit_job_queue.Failure.Enforcer.{
  max_failures_within, new_enforcer, get_or_create_failure_enforcer,
}
use lib_rabbit_job_queue.Failure.Enforcer.Refinement.{
  Call, run, expected, IsChronological, run-new_enforcer,
}

run_wrapped :
    (w : ℤ) (calls : List (ℤ × Call))
    → IsChronological (pos 0) calls
    → run (get_or_create_failure_enforcer none w) calls
      ≡ expected (max_failures_within (wrap_int (w +ℤ w)) (pos (2 * nanos_per_second))) [] calls
unfolding get_or_create_failure_enforcer new_enforcer in_whole_milliseconds
run_wrapped w calls h =
    run-new_enforcer (max_failures_within (wrap_int (w +ℤ w)) (pos (2 * nanos_per_second))) calls
      (refl, omega arith) h

pub run-default :
    (w : ℤ) (calls : List (ℤ × Call))
    → pos 1 ≤ℤ w
    → w <ℤ pos (2 ^ 30)
    → IsChronological (pos 0) calls
    → run (get_or_create_failure_enforcer none w) calls
      ≡ expected (max_failures_within (w +ℤ w) (pos (2 * nanos_per_second))) [] calls
unfolding ◌+ℤ◌
run-default w calls l u h =
    subst
      (λ m.
        run (get_or_create_failure_enforcer none w) calls
        ≡ expected (max_failures_within m (pos (2 * nanos_per_second))) [] calls)
      (wrap_int_of_IsInt (w +ℤ w) (ground arith, ground arith)) (run_wrapped w calls h)
