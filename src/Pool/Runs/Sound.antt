-- ===== src/Pool/Runs/Sound.antt =====
-- What holds of a pool after any operations.
use lib_rabbit_job_queue.Common.{
  ℕ, zero, suc, ◌+◌, ◌≤◌, length, ◌≡◌, refl, ◌∙◌, ap, subst, none, some, List, [], ◌∷◌, String,
  arith,
}
use lib_rabbit_job_queue.Common.Int.{ℤ, pos_part}
use lib_rabbit_job_queue.Pool.State.{
  Ref, FailureChecker, Broker, Pool, Run, ok, throw, out_of_fuel, no_executor,
}
use lib_rabbit_job_queue.Pool.Chain.{Chain, IsDistinct}
use lib_rabbit_job_queue.Pool.Sound.{
  IsSound, openings, subscriptions, Falls-IsDistinct, Falls-length,
}
use lib_rabbit_job_queue.Pool.Sound.Kept.{Leaves, Leaves-bind, Leaves-mono}
use lib_rabbit_job_queue.Pool.Sound.Added.{Grows, add_new-Grows}
use lib_rabbit_job_queue.Pool.Sound.Ended.{Keeps, stop-Keeps, stop_now-Keeps}
use lib_rabbit_job_queue.Pool.Sound.Replaced.{on_consumer_shutdown-Grows}
use lib_rabbit_job_queue.Pool.Runs.{
  Operation, shuts_down, stops, stops_now, left_by, counted, callbacks, perform, or_stuck,
  perform_all,
}
use lib_rabbit_job_queue.Pool.{new_pool, start, start_loop, add_new}

pub left :
    {E A : Type 0} (P : Pool E → Type 0) (r : Run E A)
    → Leaves P r
    → (q : Pool E) × (left_by r ≡ some q) × P q
left P (ok a p) l = (p, refl, l)
left P (throw e p) l = (p, refl, l)
left P out_of_fuel l = absurd l

module _ {E : Type 0} (broker : Broker) (c : FailureChecker E) where
  start_loop-Grows : (n : ℕ) (p : Pool E) → IsSound p → Leaves (Grows n p) (start_loop broker n p)
  unfolding start_loop
  start_loop-Grows zero p s = (s, omega arith)
  start_loop-Grows (suc n) p s =
      Leaves-bind (Grows 1 p) (Grows (suc n) p) (add_new broker p) (λ _. start_loop broker n)
        (add_new-Grows broker p s) (λ q (sound, few). (sound, omega (arith, few)))
        λ _ q (sound, few).
          Leaves-mono (Grows n q) (Grows (suc n) p) (start_loop broker n q)
            (start_loop-Grows n q sound) λ r (kept, more). (kept, omega (arith, few, more))

  pub perform-Grows :
      (o : Operation) (p : Pool E)
      → IsSound p
      → (q : Pool E) × (perform broker c o p ≡ some q) × Grows (counted o) p q
  perform-Grows (shuts_down t asked x) p s =
      left (Grows 1 p) _ (on_consumer_shutdown-Grows broker c t asked x p s)
  perform-Grows (stops block k after terminated in_time) p s =
      let (q, e, (kept, same)) =
        left (Keeps p) _ (stop-Keeps p s block k after terminated in_time) in
      (q, e, (kept, omega (arith, same)))
  perform-Grows (stops_now block) p s =
      let (q, e, (kept, same)) = left (Keeps p) _ (stop_now-Keeps p s block) in
      (q, e, (kept, omega (arith, same)))

  perform_all-Grows :
      (os : List Operation) (p : Pool E)
      → IsSound p
      → (q : Pool E) × (perform_all broker c os p ≡ some q) × Grows (callbacks os) p q
  unfolding perform_all
  perform_all-Grows [] p s = (p, refl, (s, omega arith))
  perform_all-Grows (o ∷ os) p s =
      let (q, e, (sound, few)) = perform-Grows o p s in
      let (r, f, (kept, more)) = perform_all-Grows os q sound in
      (
        r,
        ap (λ s'. or_stuck broker c s' (perform_all broker c os)) e ∙ f,
        (kept, omega (arith, few, more)),
      )

  pub new_pool-IsSound :
      (size : ℤ) (queue : String) (checker : E) (made : Pool E)
      → new_pool size queue checker ≡ some made
      → IsSound made × (made.requests ≡ 0) × (made.pool_size ≡ size)
  unfolding new_pool
  new_pool-IsSound size queue checker made new =
      let none_yet : made.requests ≡ 0 = ground arith in
      let quiet : made.log ≡ [] = ground arith in
      let no_end : made.tail ≡ none = ground arith in
      let empty : made.executors ≡ λ x. no_executor = ground arith in
      (
        (
          [],
          record {
            chain = ground arith;
            distinct = tt;
            made = tt;
            room = omega arith;
            tail_made = rw no_end tt;
            alone = λ x. rw empty refl;
            opened_once = rw quiet tt;
            subscribed_once = rw quiet tt;
          },
        ),
        none_yet,
        ground arith,
      )

  module _ (size : ℤ) (queue : String) (checker : E) (made started : Pool E)
      (new : new_pool size queue checker ≡ some made)
      (ran : start broker made ≡ ok tt started) where
    pub started-Grows : Grows (pos_part size) made started
    unfolding start
    started-Grows =
        let (sound, none_yet, sized) = new_pool-IsSound size queue checker made new in
        subst (Leaves (Grows (pos_part size) made)) ran
          (simp sized (start_loop-Grows (pos_part size) made sound))

    -- Whatever happens to a pool that has been started, in any order, and whatever the broker refuses and
    -- the callbacks throw: every operation comes to its end, and afterwards a walk along `next` from the
    -- head meets finitely many executors, each of them once.
    pub perform_all_ends :
        (os : List Operation)
        → (q : Pool E) × (perform_all broker c os started ≡ some q)
          × ((xs : List Ref) × Chain q.executors q.head xs × IsDistinct xs)
    perform_all_ends os =
        let (q, e, ((xs, s), few)) = perform_all-Grows os started started-Grows.0 in
        (q, e, (xs, s.chain, s.distinct))

    -- Whatever happens to it, no channel is opened twice and none is subscribed twice, and in all no more
    -- channels are opened than the pool's size and one for each callback.
    pub perform_all-openings :
        (os : List Operation) (q : Pool E)
        → perform_all broker c os started ≡ some q
        → IsDistinct (openings q.log)
          × IsDistinct (subscriptions q.log)
          × (length (openings q.log) ≤ pos_part size + callbacks os)
    perform_all-openings os q e =
        let (r, f, ((xs, s), few)) = perform_all-Grows os started started-Grows.0 in
        let same : q ≡ r = ground (arith, e, f) in
        rw same (
          Falls-IsDistinct r.requests (openings r.log) s.opened_once,
          Falls-IsDistinct r.requests (subscriptions r.log) s.subscribed_once,
          omega (
            arith,
            few,
            started-Grows.1,
            (new_pool-IsSound size queue checker made new).1,
            Falls-length r.requests (openings r.log) s.opened_once,
          ),
        )
