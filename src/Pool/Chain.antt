-- ===== src/Pool/Chain.antt =====
-- The executors that a walk along `next` from the head meets, and what `add` and `remove` do to them.
use lib_rabbit_job_queue.Common.{
  ℕ, ◌+◌, ◌<◌, ◌≤◌, length, ◌≡◌, refl, Bool, true, false, ◌||◌, Option, none, some, List, [], ◌∷◌,
  ◌++◌, All, arith, ◌==◌, ==_iff, Bool-cases, inl, inr, subst, sym, ap, ◌≢◌,
}
use lib_rabbit_job_queue.Pool.State.{Ref, Executor, Pool, update, same}

abbrev pub Store : Type 0
Store = Ref → Executor

-- From `h` the `next` fields lead through `xs` to null.
abbrev pub Chain : Store → Option Ref → List Ref → Type 0
Chain s h [] = h ≡ none
Chain s h (x ∷ xs) = (h ≡ some x) × Chain s (s x).next xs

abbrev pub has : Ref → List Ref → Bool
has a [] = false
has a (x ∷ xs) = (a == x) || has a xs

abbrev pub IsDistinct : List Ref → Type 0
IsDistinct [] = Unit
IsDistinct (x ∷ xs) = (has x xs ≡ false) × IsDistinct xs

abbrev pub last : Ref → List Ref → Ref
last x [] = x
last x (y ∷ ys) = last y ys

-- `t` is the last of a list that is not empty.
abbrev pub EndsAt : Option Ref → List Ref → Type 0
EndsAt t [] = Unit
EndsAt t (x ∷ xs) = t ≡ some (last x xs)

-- The list of the pool holds the executors `xs`, in order. No executor has a `prev`.
pub record IsLinked {E : Type 0} (p : Pool E) (xs : List Ref) : Type 0 where
  pub chain : Chain p.executors p.head xs
  pub ends : EndsAt p.tail xs
  pub distinct : IsDistinct xs
  pub made : All (λ x. x < p.requests) xs
  pub room : length xs ≤ p.requests
  pub alone : All (λ x. (p.executors x).prev ≡ none) xs

pub below-has : (n : ℕ) (xs : List Ref) → All (λ x. x < n) xs → has n xs ≡ false
below-has n [] h = refl
below-has n (x ∷ xs) h = ground (arith, below-has n xs h.1)

pub last-has : (x : Ref) (xs : List Ref) → has (last x xs) (x ∷ xs) ≡ true
last-has x [] = ground arith
last-has x (y ∷ ys) = ground (arith, last-has y ys)

module _ (s : Store) where
  pub Chain-update :
      (x : Ref) (e : Executor) (h : Option Ref) (xs : List Ref)
      → has x xs ≡ false
      → Chain s h xs
      → Chain (update s x e) h xs
  Chain-update x e h [] out c = c
  Chain-update x e h (y ∷ ys) out c =
      let f : update s x e y ≡ s y = ground (arith, ==_iff x y, ==_iff y x) in
      (c.0, rw f (Chain-update x e (s y).next ys (ground arith) c.1))

  pub Chain-append :
      (n : Ref) (h : Option Ref) (y : Ref) (ys : List Ref)
      → Chain s h (y ∷ ys)
      → IsDistinct (y ∷ ys)
      → has n (y ∷ ys) ≡ false
      → (s n).next ≡ none
      → Chain (update s (last y ys) (record (s (last y ys)) { next = some n })) h (y ∷ ys ++ n ∷ [])
  Chain-append n h y [] c d out e = ground (arith, ==_iff n y)
  Chain-append n h y (z ∷ zs) c d out e =
      let v : Executor = record (s (last z zs)) { next = some n } in
      let f : update s (last z zs) v y ≡ s y =
        ground (arith, last-has z zs, ==_iff y (last z zs)) in
      (c.0, rw f (Chain-append n (s y).next z zs c.1 d.1 (ground arith) e))

has-append :
    (a n : Ref) (xs : List Ref) → has a xs ≡ false → (a == n) ≡ false → has a (xs ++ n ∷ []) ≡ false
has-append a n [] h k = ground arith
has-append a n (x ∷ xs) h k = ground (arith, has-append a n xs)

pub IsDistinct-append :
    (n : Ref) (xs : List Ref) → IsDistinct xs → has n xs ≡ false → IsDistinct (xs ++ n ∷ [])
IsDistinct-append n [] d h = (refl, tt)
IsDistinct-append n (x ∷ xs) d h =
    (has-append x n xs d.0 (ground (arith, ==_iff n x)), IsDistinct-append n xs d.1 (ground arith))

pub last-append : (n x : Ref) (xs : List Ref) → last x (xs ++ n ∷ []) ≡ n
last-append n x [] = refl
last-append n x (y ∷ ys) = last-append n y ys

pub below-append :
    (n : ℕ) (xs : List Ref) → All (λ x. x < n) xs → All (λ x. x < n + 1) (xs ++ n ∷ [])
below-append n [] h = (omega arith, tt)
below-append n (x ∷ xs) h = (omega arith, below-append n xs h.1)

-- A store in which only `n` and `t` differ from `s`, and neither has a `prev` it did not have.
pub alone-append :
    (s r : Store) (n : Ref) (xs : List Ref)
    → ((x : Ref) → (s x).prev ≡ none → (r x).prev ≡ none)
    → (r n).prev ≡ none
    → All (λ x. (s x).prev ≡ none) xs
    → All (λ x. (r x).prev ≡ none) (xs ++ n ∷ [])
alone-append s r n [] f e h = (e, tt)
alone-append s r n (x ∷ xs) f e h = (f x h.0, alone-append s r n xs f e h.1)

-- A write to a `prev` moves nobody in the chain.
pub Chain-prev :
    (s : Store) (z : Ref) (v h : Option Ref) (xs : List Ref)
    → Chain s h xs
    → Chain (update s z (record (s z) { prev = v })) h xs
Chain-prev s z v h [] c = c
Chain-prev s z v h (x ∷ xs) c =
    let f : (update s z (record (s z) { prev = v }) x).next ≡ (s x).next =
      ground (arith, ==_iff x z) in
    (c.0, rw f (Chain-prev s z v (s x).next xs c.1))

-- Taking a `prev` away leaves none where there was none.
pub alone-update :
    (s : Store) (z : Ref) (xs : List Ref)
    → All (λ x. (s x).prev ≡ none) xs
    → All (λ x. (update s z (record (s z) { prev = none }) x).prev ≡ none) xs
alone-update s z [] a = tt
alone-update s z (x ∷ xs) a = (ground arith, alone-update s z xs a.1)

pub EndsAt-tail : (t : Option Ref) (x : Ref) (xs : List Ref) → EndsAt t (x ∷ xs) → EndsAt t xs
EndsAt-tail t x [] e = tt
EndsAt-tail t x (y ∷ ys) e = e

pub All-last : (P : Ref → Type 0) (x : Ref) (xs : List Ref) → All P (x ∷ xs) → P (last x xs)
All-last P x [] a = a.0
All-last P x (y ∷ ys) a = All-last P y ys a.1

pub All-has : (P : Ref → Type 0) (x : Ref) (xs : List Ref) → All P xs → has x xs ≡ true → P x
All-has P x [] a h = cc
All-has P x (y ∷ ys) a h = elim (Bool-cases (x == y)) [
  | inl e ↦ subst P (sym ((==_iff x y).0 e)) a.0
  | inr n ↦ All-has P x ys a.1 (ground arith)
]

pub same_of_ne : (o : Option Ref) (x : Ref) → o ≢ some x → same o x ≡ false
same_of_ne none x h = refl
same_of_ne (some y) x h = elim (Bool-cases (y == x)) [
  | inl e ↦ absurd (h (ap some ((==_iff y x).0 e)))
  | inr n ↦ n
]
