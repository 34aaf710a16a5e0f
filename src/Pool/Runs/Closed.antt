-- ===== src/Pool/Runs/Closed.antt =====
-- A pool that has been stopped.
use lib_rabbit_job_queue.Common.{
  ◌≡◌, refl, ap, ◌∙◌, sym, subst, Bool, true, false, some, List, [], ◌∷◌,
}
use lib_rabbit_job_queue.Common.Int.{ℤ}
use lib_rabbit_job_queue.Pool.State.{
  Ref, FailureChecker, Readings, Broker, Pool, Run, and_then, done,
}
use lib_rabbit_job_queue.Pool.Sound.{openings}
use lib_rabbit_job_queue.Pool.Sound.Kept.{Leaves, Leaves-bind, Leaves-mono}
use lib_rabbit_job_queue.Pool.Sound.Replaced.{Leaves-if}
use lib_rabbit_job_queue.Pool.Runs.Sound.{left}
use lib_rabbit_job_queue.Pool.Replacing.{remove_frame}
use lib_rabbit_job_queue.Pool.Stopping.{stop_executors-closing}
use lib_rabbit_job_queue.Pool.Runs.{
  Operation, shuts_down, stops, stops_now, perform, or_stuck, perform_all,
}
use lib_rabbit_job_queue.Pool.{
  on_consumer_shutdown, stop, stop_now, stop_executors, stop_executor, replace, halt_pool,
}

-- The pool stays closed, and nothing was opened.
pub record StaysClosed {E : Type 0} (p q : Pool E) : Type 0 where
  pub closing : q.closing ≡ true
  pub openings : openings q.log ≡ openings p.log

module _ {E : Type 0} (p : Pool E) (h : p.closing ≡ true) where
  as_it_is :
      {A : Type 0} (k : Unit {0} → Pool E → Run E A)
      → Leaves (StaysClosed p) (k tt p)
      → Leaves (StaysClosed p) (and_then (stop_executors p) k)
  as_it_is k l =
      subst (λ r. Leaves (StaysClosed p) (and_then r k)) (sym (stop_executors-closing p h)) l

  abbrev still : StaysClosed p p
  still = record { closing = h; openings = refl }

  stop-StaysClosed :
      (block : Bool) (k : ℤ) (after terminated in_time : Bool)
      → Leaves (StaysClosed p) (stop block k after terminated in_time p)
  unfolding stop
  stop-StaysClosed false k a true b = as_it_is _ (record { closing = h; openings = refl })
  stop-StaysClosed false k a false b = as_it_is _ (record { closing = h; openings = refl })
  stop-StaysClosed true k a t true = as_it_is _ (record { closing = h; openings = refl })
  stop-StaysClosed true k true t false = as_it_is _ (record { closing = h; openings = refl })
  stop-StaysClosed true k false t false = as_it_is _ (record { closing = h; openings = refl })

  stop_now-StaysClosed : (block : Bool) → Leaves (StaysClosed p) (stop_now block p)
  unfolding stop_now
  stop_now-StaysClosed true = as_it_is _ (record { closing = h; openings = refl })
  stop_now-StaysClosed false = as_it_is _ (record { closing = h; openings = refl })

module _ {E : Type 0} (broker : Broker) (c : FailureChecker E) where
  replace-StaysClosed :
      (x : Ref) (p : Pool E) → p.closing ≡ true → Leaves (StaysClosed p) (replace broker c x p)
  unfolding replace stop_executor
  replace-StaysClosed x p h =
      let f = remove_frame x p in
      let e = f.0 ∙ h in simp e (record { closing = refl; openings = ap openings f.2 })

  callback-StaysClosed :
      (t : Readings) (asked : Bool) (x : Ref) (p : Pool E)
      → p.closing ≡ true
      → Leaves (StaysClosed p) (on_consumer_shutdown broker c t asked x p)
  unfolding on_consumer_shutdown halt_pool
  callback-StaysClosed t true x p h = replace-StaysClosed x p h
  callback-StaysClosed t false x p h =
      let (halted, checker) = c.halt t.asked (c.mark t.marked p.checker) in
      let q : Pool E = record p { checker = checker } in
      let q' : Pool E = record p { checker = (c.tells t.told checker).1 } in
      Leaves-if (StaysClosed p) halted (halt_pool broker c t.told q) (replace broker c x q)
        (Leaves-if (StaysClosed p) (c.tells t.told checker).0 _ _
          (Leaves-bind (StaysClosed q') (StaysClosed p) (stop_now true q') (λ _. done)
            (stop_now-StaysClosed q' h true)
            (λ r s. record { closing = s.closing; openings = s.openings })
            λ _ r s. record { closing = s.closing; openings = s.openings })
          (record { closing = h; openings = refl }))
        (Leaves-mono (StaysClosed q) (StaysClosed p) (replace broker c x q)
          (replace-StaysClosed x q h) λ r s. record { closing = s.closing; openings = s.openings })

  pub perform-StaysClosed :
      (o : Operation) (p : Pool E)
      → p.closing ≡ true
      → (q : Pool E) × (perform broker c o p ≡ some q) × StaysClosed p q
  perform-StaysClosed (shuts_down t asked x) p h =
      left (StaysClosed p) _ (callback-StaysClosed t asked x p h)
  perform-StaysClosed (stops block k after terminated in_time) p h =
      left (StaysClosed p) _ (stop-StaysClosed p h block k after terminated in_time)
  perform-StaysClosed (stops_now block) p h =
      left (StaysClosed p) _ (stop_now-StaysClosed p h block)

  -- Once a pool is closing, nothing that happens to it opens a channel again, whichever consumers
  -- shut down and however often it is stopped, and every operation comes to its end.
  pub perform_all-StaysClosed :
      (os : List Operation) (p : Pool E)
      → p.closing ≡ true
      → (q : Pool E) × (perform_all broker c os p ≡ some q)
        × (q.closing ≡ true)
        × (openings q.log ≡ openings p.log)
  unfolding perform_all
  perform_all-StaysClosed [] p h = (p, refl, h, refl)
  perform_all-StaysClosed (o ∷ os) p h =
      let (q, e, s) = perform-StaysClosed o p h in
      let (r, f, closing, same) = perform_all-StaysClosed os q s.closing in
      (
        r,
        ap (λ s'. or_stuck broker c s' (perform_all broker c os)) e ∙ f,
        closing,
        same ∙ s.openings,
      )
