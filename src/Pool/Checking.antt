-- ===== src/Pool/Checking.antt =====
-- The pool with the library's own enforcers as its failure checker: when the policy says that the
-- executor has failed the pool stops, and until then it goes on.
use lib_rabbit_job_queue.Common.{
  ◌≡◌, Bool, true, false, List, [], ◌∷◌, ◌++◌, ap, ◌∙◌, Bool-cases, inl, inr,
}
use lib_rabbit_job_queue.Common.Int.{ℤ, ◌≤ℤ◌}
use lib_rabbit_job_queue.Failure.Counter.Refinement.{IsMillis}
use lib_rabbit_job_queue.Failure.Enforcer.{
  Policy, Enforcer, Enforcers, any, told, Told, mark_failure, should_halt, reason,
}
use lib_rabbit_job_queue.Failure.Enforcer.Reasons.{reason-told, reason-pruned}
use lib_rabbit_job_queue.Failure.Enforcer.Refinement.{
  Follows, halts, mark_failure-Follows, should_halt-halts,
}
use lib_rabbit_job_queue.Pool.State.{
  Ref, FailureChecker, Readings, Broker, Pool, Returns, throw, no_reason,
}
use lib_rabbit_job_queue.Pool.Sound.Kept.{Leaves}
use lib_rabbit_job_queue.Pool.Attempting.{Tried, shutdown-Tried}
use lib_rabbit_job_queue.Pool.Stopping.{closes, killed, Holds, Stopped, shutdown_halts, unexplained}
use lib_rabbit_job_queue.Pool.{on_consumer_shutdown}

-- Whether `reason()` returns.
abbrev pub is_told : Told → Bool
is_told (told r) = true
is_told _ = false

abbrev pub library_checker : FailureChecker Enforcer
library_checker = record {
  mark = mark_failure;
  halt = should_halt;
  tells = λ now e. let (t, e') = reason now e in (is_told t, e');
}

-- What the policy's verdict makes of an unexpected shutdown: the pool has stopped, or is open and has tried
-- to replace the executor.
abbrev pub Outcome : Broker → Ref → Pool Enforcer → List Ref → Readings → Bool → Type 0
Outcome broker x p xs now true =
    Returns (λ _ q. Stopped (killed true (closes xs p.log)) q)
      (on_consumer_shutdown broker library_checker now false x p)
Outcome broker x p xs now false =
    Leaves (Tried broker x p) (on_consumer_shutdown broker library_checker now false x p)

module _ {policy : Policy} {last : ℤ} {failures : List ℤ} (broker : Broker) (now : Readings)
    (x : Ref) (p : Pool Enforcer) (follows : Follows last failures policy p.checker)
    (later : last ≤ℤ now.marked) (marked : IsMillis now.marked) (onwards : now.marked ≤ℤ now.asked)
    (asked : IsMillis now.asked) where
  answer :
      (should_halt now.asked (mark_failure now.marked p.checker)).0
      ≡ halts policy now.asked (failures ++ now.marked ∷ [])
  answer =
      (should_halt-halts now.asked onwards asked
        (mark_failure-Follows now.marked later marked follows)).0

  -- The pool is open, a walk of its list ends, its enforcer has followed the failures so far, and the clock, whose
  -- readings are milliseconds of a Long that are not negative, has not gone back, nor moved on between
  -- `shouldHalt` and `reason`. If the policy says of all the failures so far, this
  -- unexpected consumer shutdown included, that the executor has failed, the callback returns, the pool has
  -- stopped, every executor of its list has been closed, and no channel has been opened. If it does not say so,
  -- the pool is left open, whether the callback returns or throws, the dead executor and no other has been closed,
  -- and one channel has been asked for, opened and subscribed as far as the broker lets it.
  pub shutdown_enforced :
      (xs : List Ref)
      → Holds p xs
      → p.closing ≡ false
      → now.told ≡ now.asked
      → Outcome broker x p xs now (halts policy now.asked (failures ++ now.marked ∷ []))
  shutdown_enforced xs h o still =
      elim (Bool-cases (halts policy now.asked (failures ++ now.marked ∷ []))) [
        | inl y ↦
            let a = answer ∙ y in
            let (r, e) = reason-told now.asked (mark_failure now.marked p.checker) a in
            rw y (shutdown_halts broker library_checker now p x a xs h o (rw still (ap is_told e)))
        | inr n ↦ rw n (shutdown-Tried broker library_checker now false x p (answer ∙ n) o)
      ]

-- With an `ofAny` policy the callback of an unexpected shutdown throws, and leaves the pool as
-- it was but for its enforcer, open with its dead executor, if by the time of `reason` no member
-- says yes any more, though one said so to `shouldHalt`. The enforcer is left as `shouldHalt`, asked once more
-- by `reason`, leaves it.
pub shutdown_unexplained :
    (broker : Broker) (now : Readings) (x : Ref) (p : Pool Enforcer) (es es' : Enforcers)
    → p.checker ≡ any es
    → should_halt now.asked (mark_failure now.marked (any es)) ≡ (true, any es')
    → (should_halt now.told (any es')).0 ≡ false
    → on_consumer_shutdown broker library_checker now false x p
      ≡ throw no_reason (record p { checker = (should_halt now.told (any es')).1 })
shutdown_unexplained broker now x p es es' c h n =
    let e : should_halt now.asked (mark_failure now.marked p.checker) ≡ (true, any es') =
      ap (λ k. should_halt now.asked (mark_failure now.marked k)) c ∙ h in
    let silent =
      ap (λ (r : Bool × Enforcer). reason now.told r.1) e ∙ reason-pruned now.told es' n in
    unexplained broker library_checker now p x (ap (λ (r : Bool × Enforcer). r.0) e)
      (ap (λ (r : Told × Enforcer). is_told r.0) silent)
    ∙ ap (λ (r : Told × Enforcer). throw no_reason (record p { checker = r.1 })) silent
