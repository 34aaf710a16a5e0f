-- ===== src/Failure/Enforcer/Tests.antt =====
-- The enforcers at concrete policies, and the theorems about them at those.
use lib_rabbit_job_queue.Common.{◌≡◌, ◌↔◌, refl, false, [], ◌∷◌, List, arith}
use lib_rabbit_job_queue.Common.Int.{ℤ, pos, to_uint, wrap_long}
use lib_rabbit_job_queue.Common.Duration.{in_whole_milliseconds}
use lib_rabbit_job_queue.Failure.Counter.{new_counter, inc, prune, cutoff_at, count, exceeds}
use lib_rabbit_job_queue.Failure.Enforcer.{
  Policy, max_failures_within, max_total_failures, of_any, end, more, Enforcer, Enforcers, any, max,
  nil, cons, Reason, told, no_such_element, new_enforcer, mark_failure, should_halt, reason,
}
use lib_rabbit_job_queue.Failure.Enforcer.Refinement.{
  Call, marks, asks, run, expected, run-new_enforcer,
}
use lib_rabbit_job_queue.Failure.Enforcer.Reasons.{reason-told, reason-no_such_element}

-- More than one failure in two seconds, or more than three in all.
abbrev policy : Policy
policy =
    of_any (
      more (max_failures_within (pos 1) (pos 2_000_000_000))
        (more (max_total_failures (pos 3)) end))

abbrev calls : List (ℤ × Call)
calls =
    (pos 1000, marks)
    ∷ (pos 1500, marks)
    ∷ (pos 1600, asks)
    ∷ (pos 3400, asks)
    ∷ (pos 9000, marks)
    ∷ (pos 9001, asks)
    ∷ []

run-new_enforcer_example : run (new_enforcer policy) calls ≡ expected policy [] calls
unfolding in_whole_milliseconds
run-new_enforcer_example = run-new_enforcer policy calls (omega arith) (omega arith)

-- An enforcer of the policy that has seen two failures.
abbrev failing : Enforcer
failing = mark_failure (pos 1500) (mark_failure (pos 1000) (new_enforcer policy))

reason-told_example :
    (r : Reason) × ((reason (pos 1600) (should_halt (pos 1600) failing).1).0 ≡ told r)
unfolding mark_failure new_enforcer should_halt in_whole_milliseconds new_counter inc prune
    cutoff_at count exceeds to_uint wrap_long
reason-told_example = reason-told (pos 1600) failing refl

-- Asked later, the same enforcer has no reason.
late : (should_halt (pos 3400) failing).0 ≡ false
unfolding mark_failure new_enforcer should_halt in_whole_milliseconds new_counter inc prune
    cutoff_at count exceeds to_uint wrap_long
late = refl

abbrev quiet : Enforcers
quiet = cons (max 3 0) nil

reason-no_such_element_example :
    ((reason (pos 5) (any quiet)).0 ≡ no_such_element)
    ↔ ((should_halt (pos 5) (any quiet)).0 ≡ false)
reason-no_such_element_example = reason-no_such_element (pos 5) quiet
