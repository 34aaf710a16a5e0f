-- ===== src/Pool/Removing.antt =====
-- `remove` on a well-formed list. No executor ever has a `prev`, so the three branches leave: for the
-- first executor the rest of the list; for the last one the whole list and no tail; for one between
-- them the whole list.
use lib_rabbit_job_queue.Common.{
  ◌<◌, ◌≤◌, length, ◌≡◌, refl, false, Option, none, some, List, [], ◌∷◌, All, arith, ==_refl,
  ==_iff,
}
use lib_rabbit_job_queue.Pool.State.{Ref, Pool, set_prev, same}
use lib_rabbit_job_queue.Pool.Chain.{
  Chain, IsDistinct, EndsAt, last, IsLinked, Chain-prev, alone-update, EndsAt-tail, last-has,
}
use lib_rabbit_job_queue.Pool.{remove, remove_inner}

module _ {E : Type 0} where
  -- The list from `h` on, once `h` is the head and its first executor has no `prev`.
  promoted :
      (p : Pool E) (h : Option Ref) (xs : List Ref)
      → Chain p.executors h xs
      → EndsAt p.tail xs
      → IsDistinct xs
      → All (λ x. x < p.requests) xs
      → length xs ≤ p.requests
      → All (λ x. (p.executors x).prev ≡ none) xs
      → IsLinked (set_prev h none (record p { head = h })) xs
  promoted p none [] c e d m r a = record {
    chain = refl;
    ends = tt;
    distinct = tt;
    made = tt;
    room = omega arith;
    alone = tt;
  }
  promoted p none (y ∷ ys) c e d m r a = cc c.0
  promoted p (some z) xs c e d m r a = record {
    chain = Chain-prev p.executors z none (some z) xs c;
    ends = e;
    distinct = d;
    made = m;
    room = r;
    alone = alone-update p.executors z xs a;
  }

  remove-head :
      (p : Pool E) (x : Ref)
      → p.head ≡ some x
      → remove x p ≡ set_prev (p.executors x).next none (record p { head = (p.executors x).next })
  unfolding remove
  remove-head p x h = simp (h, ==_refl x)

  pub remove_first :
      (p : Pool E) (x : Ref) (xs : List Ref) → IsLinked p (x ∷ xs) → IsLinked (remove x p) xs
  remove_first p x xs l = rw (remove-head p x l.chain.0) (
      promoted p (p.executors x).next xs l.chain.1 (EndsAt-tail p.tail x xs l.ends) l.distinct.1
        l.made.1 (omega (arith, l.room)) l.alone.1)

  -- The last executor of several: it stays where it is, and the pool has no tail.
  pub remove_at_end :
      (p : Pool E) (y : Ref) (z : Ref) (zs : List Ref)
      → IsLinked p (y ∷ z ∷ zs)
      → (p.executors (last z zs)).prev ≡ none
      → remove (last z zs) p ≡ record p { tail = none }
  unfolding remove
  remove_at_end p y z zs l a =
      let h : same (some y) (last z zs) ≡ false =
        ground (arith, last-has z zs, l.distinct.0, ==_iff y (last z zs)) in
      simp (l.chain.0, l.ends, h, a, ==_refl (last z zs))

  prev-set_prev :
      (p : Pool E) (h : Option Ref) (x : Ref)
      → (p.executors x).prev ≡ none
      → ((set_prev h none p).executors x).prev ≡ none
  prev-set_prev p none x a = a
  prev-set_prev p (some z) x a = ground arith

  set_prev-IsLinked :
      (p : Pool E) (h : Option Ref) (xs : List Ref)
      → IsLinked p xs
      → IsLinked (set_prev h none p) xs
  set_prev-IsLinked p none xs l = l
  set_prev-IsLinked p (some z) xs l = record {
    chain = Chain-prev p.executors z none p.head xs l.chain;
    ends = l.ends;
    distinct = l.distinct;
    made = l.made;
    room = l.room;
    alone = alone-update p.executors z xs l.alone;
  }

  inner-set_prev :
      (p : Pool E) (x : Ref)
      → (p.executors x).prev ≡ none
      → remove_inner x p ≡ set_prev (p.executors x).next none p
  unfolding remove
  inner-set_prev p x a = simp (a, prev-set_prev p (p.executors x).next x a)

  -- An executor between the first and the last: it stays in the list.
  pub remove_between :
      (p : Pool E) (x : Ref) (xs : List Ref)
      → IsLinked p xs
      → same p.head x ≡ false
      → same p.tail x ≡ false
      → (p.executors x).prev ≡ none
      → IsLinked (remove x p) xs
  unfolding remove
  remove_between p x xs l h t a =
      simp (h, t, inner-set_prev p x a) (set_prev-IsLinked p (p.executors x).next xs l)
