-- ===== src/Delivery/Handlers.antt =====
-- pools/HandlerPool.kt, JobHandlers.kt, ErrorHandlers.kt and SuccessHandlers.kt: the handlers of a
-- queue end, which are called in the order in which they were registered.
use lib_rabbit_job_queue.Common.{
  ◌≡◌, refl, ap, Bool, true, false, ◌||◌, List, [], ◌∷◌, ◌++◌, arith, if◌then◌else◌,
}

-- A handler's call: it takes the message and the world, and says whether it throws.
abbrev pub Handling : Type 0 → Type 0 → Type 0 → Type 0
Handling H T S = H → T → S → Bool × S

pub register : {H : Type 0} → H → List H → List H
register h hs = hs ++ h ∷ []

module _ {H : Type 0} (same : H → H → Bool) where
  -- `ArrayList.remove(handler)` takes the first one away that is equal to it.
  pub deregister : H → List H → List H
  deregister h [] = []
  deregister h (k ∷ ks) = let rest = deregister h ks in if same h k then ks else k ∷ rest

  abbrev pub has : H → List H → Bool
  has h [] = false
  has h (k ∷ ks) = same h k || has h ks

  -- A handler that is registered when no equal one is can be taken away again, and leaves the others
  -- as they were.
  pub deregister-register :
      (h : H) (hs : List H) → same h h ≡ true → has h hs ≡ false → deregister h (register h hs) ≡ hs
  unfolding deregister register
  deregister-register h [] r n = ground arith
  deregister-register h (k ∷ ks) r n = ground (arith, deregister-register h ks)

-- What comes after a call that may throw is left out if it has thrown.
abbrev pub after : {S : Type 0} → Bool × S → (S → Bool × S) → Bool × S
after (true, s) rest = (true, s)
after (false, s) rest = rest s

module _ {H T S : Type 0} (handle : Handling H T S) where
  -- `handlers.forEach { it.handle(msg) }`.
  unfoldable pub execute : List H → T → S → Bool × S
  execute [] msg s = (false, s)
  execute (h ∷ hs) msg s = after (handle h msg s) (λ t. execute hs msg t)

  after_assoc :
      (r : Bool × S) (f g : S → Bool × S) → after r (λ s. after (f s) g) ≡ after (after r f) g
  after_assoc (true, s) f g = refl
  after_assoc (false, s) f g = refl

  pub after_last : (r : Bool × S) → after r (λ s. (false, s)) ≡ r
  after_last (true, s) = refl
  after_last (false, s) = refl

  -- A handler that has been registered is called after all the others, if none of them throws.
  execute-register :
      (h : H) (hs : List H) (msg : T) (s : S)
      → execute (register h hs) msg s ≡ after (execute hs msg s) (handle h msg)
  unfolding execute register
  execute-register h [] msg s = after_last (handle h msg s)
  execute-register h (k ∷ ks) msg s =
      rw (← after_assoc (handle k msg s) (execute ks msg) (handle h msg))
        (ap (after (handle k msg s)) (λ i t. execute-register h ks msg t i))
