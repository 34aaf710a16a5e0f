-- ===== src/Pool/Sound/Ended.antt =====
-- Stopping keeps what holds of a pool, and always comes to an end.
use lib_rabbit_job_queue.Common.{
  ℕ, suc, zero, ◌+◌, ◌≤◌, length, ◌≡◌, refl, Bool, true, false, Option, none, List, [], ◌∷◌, arith,
  Bool-cases, inl, inr,
}
use lib_rabbit_job_queue.Common.Int.{ℤ}
use lib_rabbit_job_queue.Pool.State.{Ref, Executor, Event, Pool, Run, and_then, update}
use lib_rabbit_job_queue.Pool.Chain.{Chain, IsDistinct, Chain-update}
use lib_rabbit_job_queue.Pool.Sound.{Sound, IsSound, openings, subscriptions}
use lib_rabbit_job_queue.Pool.Sound.Kept.{Leaves, Leaves-bind}
use lib_rabbit_job_queue.Pool.{stop_executor, stop_loop, stop_executors, stop_now, stop}

module _ {E : Type 0} where
  -- The pool is as good as it was, and no channel was asked for.
  abbrev pub Keeps : Pool E → Pool E → Type 0
  Keeps p q = IsSound q × (q.requests ≡ p.requests)

  emptied :
      (p : Pool E) (xs : List Ref)
      → Sound p xs
      → Sound (record p { closing = true; head = none; tail = none }) []
  emptied p xs s = record {
    chain = refl;
    distinct = tt;
    made = tt;
    room = omega arith;
    tail_made = tt;
    alone = s.alone;
    opened_once = s.opened_once;
    subscribed_once = s.subscribed_once;
  }

  stop_loop-Keeps :
      (fuel : ℕ) (h : Option Ref) (xs : List Ref) (p : Pool E)
      → Chain p.executors h xs
      → IsDistinct xs
      → length xs ≤ fuel
      → p.head ≡ none
      → Sound p []
      → Leaves (Keeps p) (stop_loop fuel h p)
  unfolding stop_loop stop_executor
  stop_loop-Keeps fuel h [] p c d f n s = rw (c, stop_loop) (([], s), refl)
  stop_loop-Keeps zero h (x ∷ xs) p c d f n s = absurd (omega arith)
  stop_loop-Keeps (suc fuel) h (x ∷ xs) p c d f n s =
      let st = p.executors in
      let e : Executor = record (st x) { prev = none } in
      let r = update st x e in
      rw (c.0, stop_loop)
        (stop_loop-Keeps fuel (st x).next xs _
          (Chain-update r x (record (r x) { next = none }) (st x).next xs d.0
            (Chain-update st x e (st x).next xs d.0 c.1))
          d.1 (omega arith) n
          (record {
            chain = n;
            distinct = tt;
            made = tt;
            room = omega arith;
            tail_made = s.tail_made;
            alone = λ y. ground (arith, s.alone y, s.alone x);
            opened_once = s.opened_once;
            subscribed_once = s.subscribed_once;
          }))

  stop_executors-Keeps : (p : Pool E) → IsSound p → Leaves (Keeps p) (stop_executors p)
  unfolding stop_executors
  stop_executors-Keeps p (xs, s) = elim (Bool-cases p.closing) [
    | inl y ↦ simp y ((xs, s), refl)
    | inr n ↦ simp n (
        stop_loop-Keeps (p.requests + 1) p.head xs _ s.chain s.distinct (omega (arith, s.room)) refl
          (emptied p xs s))
  ]

  -- A pool with more calls in its log that open and subscribe nothing.
  pub relogged :
      (p q : Pool E) (log : List Event)
      → Keeps p q
      → openings log ≡ openings q.log
      → subscriptions log ≡ subscriptions q.log
      → Keeps p (record q { log = log })
  relogged p q log ((xs, s), same) o c = (
    (
      xs,
      record {
        chain = s.chain;
        distinct = s.distinct;
        made = s.made;
        room = s.room;
        tail_made = s.tail_made;
        alone = s.alone;
        opened_once = rw o s.opened_once;
        subscribed_once = rw c s.subscribed_once;
      },
    ),
    same,
  )

  module _ (p : Pool E) (s : IsSound p) where
    then_logs :
        {A : Type 0} (k : Unit {0} → Pool E → Run E A)
        → ((q : Pool E) → Keeps p q → Leaves (Keeps p) (k tt q))
        → Leaves (Keeps p) (and_then (stop_executors p) k)
    then_logs k next =
        Leaves-bind (Keeps p) (Keeps p) (stop_executors p) k (stop_executors-Keeps p s) (λ q l. l)
          (λ _. next)

    pub stop-Keeps :
        (block : Bool) (kill_after : ℤ) (after terminated in_time : Bool)
        → Leaves (Keeps p) (stop block kill_after after terminated in_time p)
    unfolding stop
    stop-Keeps false k a true b = then_logs _ λ q l. relogged p q _ l refl refl
    stop-Keeps false k a false b = then_logs _ λ q l. relogged p q _ l refl refl
    stop-Keeps true k a t true = then_logs _ λ q l. relogged p q _ l refl refl
    stop-Keeps true k true t false = then_logs _ λ q l. relogged p q _ l refl refl
    stop-Keeps true k false t false = then_logs _ λ q l. relogged p q _ l refl refl

    pub stop_now-Keeps : (block : Bool) → Leaves (Keeps p) (stop_now block p)
    unfolding stop_now
    stop_now-Keeps true = then_logs _ λ q l. relogged p q _ l refl refl
    stop_now-Keeps false = then_logs _ λ q l. relogged p q _ l refl refl
