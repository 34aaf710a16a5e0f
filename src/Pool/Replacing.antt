-- ===== src/Pool/Replacing.antt =====
-- The callback of `onConsumerShutdown` where the pool goes on: the executor whose consumer died is
-- replaced. What becomes of the list depends on where that executor stands in it.
use lib_rabbit_job_queue.Common.{
  ◌≡◌, ◌≢◌, ◌∙◌, subst, refl, Bool, true, false, none, some, List, [], ◌∷◌, ◌++◌, arith,
}
use mathlib.Core.Path.{ap₂}
use lib_rabbit_job_queue.Pool.State.{
  Ref, Event, opened, consuming, closed, FailureChecker, Readings, Broker, Pool, Returns,
  Returns-mono,
}
use lib_rabbit_job_queue.Pool.Chain.{has, IsLinked, All-has, same_of_ne}
use lib_rabbit_job_queue.Pool.Removing.{remove_first, remove_between}
use lib_rabbit_job_queue.Pool.Started.{add_new-IsLinked}
use lib_rabbit_job_queue.Pool.{remove, stop_executor, add_new, replace, on_consumer_shutdown}

module _ {E : Type 0} where
  -- The callback does not halt the pool: the shutdown was asked for, or the checker says to go on.
  abbrev pub GoesOn : FailureChecker E → Readings → Bool → Pool E → Type 0
  GoesOn c now true p = Unit
  GoesOn c now false p = (c.halt now.asked (c.mark now.marked p.checker)).0 ≡ false

  -- The pool with the checker as the callback leaves it.
  abbrev pub checked : FailureChecker E → Readings → Bool → Pool E → Pool E
  checked c now true p = p
  checked c now false p = record p { checker = (c.halt now.asked (c.mark now.marked p.checker)).1 }

  shutdown-replace :
      (broker : Broker) (c : FailureChecker E) (now : Readings) (asked : Bool) (x : Ref)
      (p : Pool E)
      → GoesOn c now asked p
      → on_consumer_shutdown broker c now asked x p ≡ replace broker c x (checked c now asked p)
  unfolding on_consumer_shutdown
  shutdown-replace broker c now true x p g = refl
  shutdown-replace broker c now false x p g = rw (g, on_consumer_shutdown)

  relogged :
      (p : Pool E) (log : List Event) (xs : List Ref)
      → IsLinked p xs
      → IsLinked (record p { log = log }) xs
  relogged p log xs l = record {
    chain = l.chain;
    ends = l.ends;
    distinct = l.distinct;
    made = l.made;
    room = l.room;
    alone = l.alone;
  }

  pub remove_frame :
      (x : Ref) (p : Pool E)
      → ((remove x p).closing ≡ p.closing)
        × ((remove x p).requests ≡ p.requests)
        × ((remove x p).log ≡ p.log)
  unfolding remove
  remove_frame x p = (ground arith, ground arith, ground arith)

  pub checked-IsLinked :
      (c : FailureChecker E) (now : Readings) (asked : Bool) (p : Pool E) (xs : List Ref)
      → IsLinked p xs
      → IsLinked (checked c now asked p) xs
  checked-IsLinked c now true p xs l = l
  checked-IsLinked c now false p xs l = record {
    chain = l.chain;
    ends = l.ends;
    distinct = l.distinct;
    made = l.made;
    room = l.room;
    alone = l.alone;
  }

  pub checked_frame :
      (c : FailureChecker E) (now : Readings) (asked : Bool) (p : Pool E)
      → ((checked c now asked p).closing ≡ p.closing)
        × ((checked c now asked p).requests ≡ p.requests)
        × ((checked c now asked p).log ≡ p.log)
        × ((checked c now asked p).head ≡ p.head)
        × ((checked c now asked p).tail ≡ p.tail)
  checked_frame c now true p = (refl, refl, refl, refl, refl)
  checked_frame c now false p = (refl, refl, refl, refl, refl)

  -- The pool as it is when the dead executor has been removed and stopped.
  abbrev pub stopped : Ref → Pool E → Pool E
  stopped x p = record (remove x p) { log = closed x ∷ (remove x p).log }

  replace-add_new :
      (broker : Broker) (c : FailureChecker E) (x : Ref) (p : Pool E)
      → p.closing ≡ false
      → replace broker c x p ≡ add_new broker (stopped x p)
  unfolding replace stop_executor
  replace-add_new broker c x p h = rw ((remove_frame x p).0, h)

  -- An open pool that is not to halt removes and stops the dead executor, and then makes a new one.
  pub GoesOn-add_new :
      (broker : Broker) (c : FailureChecker E) (now : Readings) (asked : Bool) (x : Ref)
      (p : Pool E)
      → GoesOn c now asked p
      → p.closing ≡ false
      → on_consumer_shutdown broker c now asked x p
        ≡ add_new broker (stopped x (checked c now asked p))
  GoesOn-add_new broker c now asked x p g is_open =
      shutdown-replace broker c now asked x p g
      ∙ replace-add_new broker c x (checked c now asked p)
          ((checked_frame c now asked p).0 ∙ is_open)

-- The executor `n` has replaced `x` as far as the broker sees it.
abbrev pub Replaced : Ref → Ref → List Event → List Event → Type 0
Replaced x n before after = after ≡ consuming n ∷ opened n ∷ closed x ∷ before

module _ {E : Type 0} (broker : Broker) (c : FailureChecker E) (now : Readings) (asked : Bool)
    (p : Pool E) (goes_on : GoesOn c now asked p) (is_open : p.closing ≡ false)
    (opens : broker.opens p.requests ≡ true) (consumes : broker.consumes p.requests ≡ true) where
  abbrev n : Ref
  n = p.requests

  abbrev q : Pool E
  q = checked c now asked p

  frame :
      (x : Ref)
      → ((remove x q).closing ≡ false) × ((remove x q).requests ≡ n) × ((remove x q).log ≡ p.log)
  frame x =
      let f = checked_frame c now asked p in
      let g = remove_frame x q in (g.0 ∙ f.0 ∙ is_open, g.1 ∙ f.1, g.2 ∙ f.2)

  pub shutdown-add_new :
      (x : Ref) → on_consumer_shutdown broker c now asked x p ≡ add_new broker (stopped x q)
  shutdown-add_new x = GoesOn-add_new broker c now asked x p goes_on is_open

  on_consumer_shutdown-IsLinked :
      (x : Ref) (xs : List Ref)
      → IsLinked (remove x q) xs
      → Returns
          (λ _ r. IsLinked r (xs ++ n ∷ []) × Replaced x n p.log r.log)
          (on_consumer_shutdown broker c now asked x p)
  on_consumer_shutdown-IsLinked x xs l = rw (shutdown-add_new x) (
      Returns-mono
        (add_new-IsLinked broker (stopped x q) (rw (frame x).1 opens) (rw (frame x).1 consumes) xs
          (relogged (remove x q) (closed x ∷ (remove x q).log) xs l))
        λ _ r (linked, g). (
          subst (λ m. IsLinked r (xs ++ m ∷ [])) (frame x).1 linked,
          g.log ∙ ap₂ (λ m log. consuming m ∷ opened m ∷ closed x ∷ log) (frame x).1 (frame x).2,
        ))

  -- If the consumer of the first executor dies in an open pool whose list is well-formed, the
  -- pool is not to halt and the broker refuses nothing, the executor leaves the list and a new
  -- one is at its end: the rest stays in its order, one channel is closed and one opened and
  -- subscribed.
  pub shutdown_first :
      (x : Ref) (xs : List Ref)
      → IsLinked p (x ∷ xs)
      → Returns
          (λ _ r. IsLinked r (xs ++ p.requests ∷ []) × Replaced x p.requests p.log r.log)
          (on_consumer_shutdown broker c now asked x p)
  shutdown_first x xs l =
      on_consumer_shutdown-IsLinked x xs
        (remove_first q x xs (checked-IsLinked c now asked p (x ∷ xs) l))

  -- If the consumer of an executor of the list dies that is neither the first nor the last, in
  -- an open pool whose list is well-formed, the pool is not to halt and the broker refuses
  -- nothing, a new executor is put at the end, but the dead one stays in the list, though its
  -- channel is closed.
  pub shutdown_between :
      (x : Ref) (xs : List Ref)
      → IsLinked p xs
      → has x xs ≡ true
      → p.head ≢ some x
      → p.tail ≢ some x
      → Returns
          (λ _ r. IsLinked r (xs ++ p.requests ∷ []) × Replaced x p.requests p.log r.log)
          (on_consumer_shutdown broker c now asked x p)
  shutdown_between x xs l i h t =
      let m = checked-IsLinked c now asked p xs l in
      let f = checked_frame c now asked p in
      on_consumer_shutdown-IsLinked x xs (
        remove_between q x xs m (rw f.3 (same_of_ne p.head x h)) (rw f.4 (same_of_ne p.tail x t))
          (All-has (λ y. (q.executors y).prev ≡ none) x xs m.alone i))
