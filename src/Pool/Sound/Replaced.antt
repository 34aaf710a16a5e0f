-- ===== src/Pool/Sound/Replaced.antt =====
-- The callback of a consumer's shutdown keeps what holds of a pool, wherever its executor stands.
use lib_rabbit_job_queue.Common.{◌≡◌, refl, ◌∷◌, Bool, true, false, arith, if◌then◌else◌}
use lib_rabbit_job_queue.Pool.State.{
  Ref, closed, FailureChecker, Readings, Broker, Pool, Run, ok, done,
}
use lib_rabbit_job_queue.Pool.Sound.{IsSound}
use lib_rabbit_job_queue.Pool.Sound.Kept.{Leaves, Leaves-bind, Leaves-mono, remove-IsSound}
use lib_rabbit_job_queue.Pool.Sound.Added.{Grows, add_new-Grows}
use lib_rabbit_job_queue.Pool.Sound.Ended.{Keeps, relogged, stop_now-Keeps}
use lib_rabbit_job_queue.Pool.Replacing.{remove_frame}
use lib_rabbit_job_queue.Pool.{
  remove, stop_executor, stop_now, add_new, replace, halt_pool, on_consumer_shutdown,
}

pub Leaves-if :
    {E A : Type 0} (P : Pool E → Type 0) (b : Bool) (r s : Run E A)
    → Leaves P r
    → Leaves P s
    → Leaves P (if b then r else s)
Leaves-if P true r s l k = l
Leaves-if P false r s l k = k

module _ {E : Type 0} (broker : Broker) (c : FailureChecker E) where
  replace-Grows : (x : Ref) (p : Pool E) → IsSound p → Leaves (Grows 1 p) (replace broker c x p)
  unfolding replace stop_executor
  replace-Grows x p s =
      let f = remove_frame x p in
      let q : Pool E = record (remove x p) { log = closed x ∷ (remove x p).log } in
      let k =
        relogged p (remove x p) (closed x ∷ (remove x p).log) (remove-IsSound x p s, f.1) refl
          refl in
      Leaves-if (Grows 1 p) (remove x p).closing (ok tt q) (add_new broker q)
        (k.0, omega (arith, k.1))
        (Leaves-mono (Grows 1 q) (Grows 1 p) (add_new broker q) (add_new-Grows broker q k.0)
          λ r (sound, few). (sound, omega (arith, few, k.1)))

  checker-Keeps : (p : Pool E) (checker : E) → IsSound p → IsSound (record p { checker = checker })
  checker-Keeps p checker (xs, s) = (
    xs,
    record {
      chain = s.chain;
      distinct = s.distinct;
      made = s.made;
      room = s.room;
      tail_made = s.tail_made;
      alone = s.alone;
      opened_once = s.opened_once;
      subscribed_once = s.subscribed_once;
    },
  )

  pub on_consumer_shutdown-Grows :
      (t : Readings) (asked : Bool) (x : Ref) (p : Pool E)
      → IsSound p
      → Leaves (Grows 1 p) (on_consumer_shutdown broker c t asked x p)
  unfolding on_consumer_shutdown halt_pool
  on_consumer_shutdown-Grows t true x p s = replace-Grows x p s
  on_consumer_shutdown-Grows t false x p s =
      let (halted, checker) = c.halt t.asked (c.mark t.marked p.checker) in
      let q : Pool E = record p { checker = checker } in
      let q' : Pool E = record p { checker = (c.tells t.told checker).1 } in
      let sound = checker-Keeps p checker s in
      let sound' = checker-Keeps p (c.tells t.told checker).1 s in
      Leaves-if (Grows 1 p) halted (halt_pool broker c t.told q) (replace broker c x q)
        (Leaves-if (Grows 1 p) (c.tells t.told checker).0 _ _
          (Leaves-bind (Keeps q') (Grows 1 p) (stop_now true q') (λ _. done)
            (stop_now-Keeps q' sound' true) (λ r (kept, same). (kept, omega (arith, same)))
            λ _ r (kept, same). (kept, omega (arith, same)))
          (sound', omega arith))
        (replace-Grows x q sound)

  -- Where the checker says that the pool is to halt, no channel is asked for.
  pub halts-Keeps :
      (t : Readings) (x : Ref) (p : Pool E) (e : E)
      → c.halt t.asked (c.mark t.marked p.checker) ≡ (true, e)
      → IsSound p
      → Leaves (Keeps p) (on_consumer_shutdown broker c t false x p)
  unfolding on_consumer_shutdown halt_pool
  halts-Keeps t x p e h s =
      let q : Pool E = record p { checker = (c.tells t.told e).1 } in
      let sound = checker-Keeps p (c.tells t.told e).1 s in
      simp h (
        Leaves-if (Keeps p) (c.tells t.told e).0 _ _
          (Leaves-bind (Keeps q) (Keeps p) (stop_now true q) (λ _. done)
            (stop_now-Keeps q sound true) (λ r k. k) λ _ r k. k)
          (sound, refl))
