-- ===== src/Pool/Losing.antt =====
-- The callback of `onConsumerShutdown` on the last of several executors: it throws where `add` reads
-- the tail that `remove` has lost.
use lib_rabbit_job_queue.Common.{
  ◌≤◌, ◌≡◌, refl, Bool, true, false, none, some, List, ◌∷◌, arith, length,
}
use lib_rabbit_job_queue.Pool.State.{
  Ref, Event, closed, null_pointer, FailureChecker, Readings, Broker, Pool, Throws, throws,
}
use lib_rabbit_job_queue.Pool.Chain.{
  Chain, IsDistinct, has, last, IsLinked, Chain-update, below-has, All-last,
}
use lib_rabbit_job_queue.Pool.Removing.{remove_at_end}
use lib_rabbit_job_queue.Pool.Replacing.{
  Replaced, GoesOn, checked, checked-IsLinked, stopped, shutdown-add_new,
}
use lib_rabbit_job_queue.Pool.{add_new, on_consumer_shutdown}

-- What is left when the callback has thrown on the last executor `x` of the list `xs`: the list is as
-- before, with no tail, and the new executor `n` is outside it, though it is opened and subscribed.
pub record Lost {E : Type 0} (x n : Ref) (xs : List Ref) (before : List Event) (r : Pool E)
    : Type 0 where
  pub chain : Chain r.executors r.head xs
  pub no_tail : r.tail ≡ none
  pub distinct : IsDistinct xs
  pub room : length xs ≤ r.requests
  pub outside : has n xs ≡ false
  pub replaced : Replaced x n before r.log
  pub closing : r.closing ≡ false

module _ {E : Type 0} (broker : Broker) (c : FailureChecker E) where
  add_new-Lost :
      (p : Pool E) (x y : Ref) (ys : List Ref)
      → IsLinked p (y ∷ ys)
      → p.closing ≡ false
      → broker.opens p.requests ≡ true
      → broker.consumes p.requests ≡ true
      → Throws null_pointer
          (Lost x p.requests (y ∷ ys) p.log)
          (add_new broker (record p { tail = none; log = closed x ∷ p.log }))
  unfolding add_new
  add_new-Lost p x y ys l is_open o k =
      let out = below-has p.requests (y ∷ ys) l.made in
      simp (o, k, l.chain.0)
        (throws (record {
          chain = Chain-update p.executors p.requests _ (some y) (y ∷ ys) out (refl, l.chain.1);
          no_tail = refl;
          distinct = l.distinct;
          room = omega (arith, l.room);
          outside = out;
          replaced = refl;
          closing = is_open;
        }))

  add_new-stopped :
      (p : Pool E) (y z : Ref) (zs : List Ref)
      → IsLinked p (y ∷ z ∷ zs)
      → p.closing ≡ false
      → broker.opens p.requests ≡ true
      → broker.consumes p.requests ≡ true
      → Throws null_pointer
          (Lost (last z zs) p.requests (y ∷ z ∷ zs) p.log)
          (add_new broker (stopped (last z zs) p))
  add_new-stopped p y z zs l is_open o k =
      let a = All-last (λ x. (p.executors x).prev ≡ none) z zs l.alone.1 in
      rw (remove_at_end p y z zs l a) (add_new-Lost p (last z zs) y (z ∷ zs) l is_open o k)

  -- If the consumer of the last of several executors dies in an open pool whose list is well-
  -- formed, and the pool is not to halt, the callback throws, though the broker refuses nothing:
  -- the new executor has its channel and its subscription, but stands outside the list, which
  -- holds the same executors as before and has lost its tail.
  pub shutdown_last :
      (now : Readings) (asked : Bool) (p : Pool E) (y z : Ref) (zs : List Ref)
      → GoesOn c now asked p
      → p.closing ≡ false
      → broker.opens p.requests ≡ true
      → broker.consumes p.requests ≡ true
      → IsLinked p (y ∷ z ∷ zs)
      → Throws null_pointer
          (Lost (last z zs) p.requests (y ∷ z ∷ zs) p.log)
          (on_consumer_shutdown broker c now asked (last z zs) p)
  shutdown_last now true p y z zs g is_open o k l =
      rw (shutdown-add_new broker c now true p g is_open o k (last z zs))
        (add_new-stopped p y z zs l is_open o k)
  shutdown_last now false p y z zs g is_open o k l =
      rw (shutdown-add_new broker c now false p g is_open o k (last z zs)) (
        add_new-stopped (checked c now false p) y z zs
          (checked-IsLinked c now false p (y ∷ z ∷ zs) l) is_open o k)
