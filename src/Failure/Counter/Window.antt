-- ===== src/Failure/Counter/Window.antt =====
-- The entries of a counter against the marks inside a window: on a list in time order the loop of
-- `count` keeps exactly the marks that are not before the cutoff.
use lib_rabbit_job_queue.Common.{
  ℕ, ◌≡◌, refl, List, [], ◌∷◌, ◌++◌, Bool, not, keep, keep-append, All, arith,
}
use lib_rabbit_job_queue.Common.Int.{ℤ, ◌≤ℤ◌, ltb_ℤ}
use lib_rabbit_job_queue.Failure.Counter.{ScrollingCounter, prune, cutoff_at, count, exceeds}

-- The marks that are not before the cutoff.
abbrev pub since : ℤ → List ℤ → List ℤ
since cutoff marks = keep (λ t. not (ltb_ℤ t cutoff)) marks

-- In time order, from `first` on.
abbrev pub IsOrdered : List ℤ → Type 0
IsOrdered [] = Unit
IsOrdered (t ∷ ts) = All (λ u. t ≤ℤ u) ts × IsOrdered ts

pub everything_since :
    (cutoff t : ℤ) (ts : List ℤ) → All (λ u. t ≤ℤ u) ts → cutoff ≤ℤ t → since cutoff ts ≡ ts
everything_since cutoff t [] h k = refl
everything_since cutoff t (u ∷ ts) h k = ground (arith, everything_since cutoff t ts h.1 k)

pub prune-since : (cutoff : ℤ) (ts : List ℤ) → IsOrdered ts → prune cutoff ts ≡ since cutoff ts
unfolding prune
prune-since cutoff [] h = refl
prune-since cutoff (t ∷ ts) h =
    ground (arith, prune-since cutoff ts h.1, everything_since cutoff t ts h.0)

-- Dropping what is before an earlier cutoff first makes no difference.
pub since-since : (c d : ℤ) (ts : List ℤ) → c ≤ℤ d → since d (since c ts) ≡ since d ts
since-since c d [] h = refl
since-since c d (t ∷ ts) h = ground (arith, since-since c d ts h)

since-All : (P : ℤ → Type 0) (c : ℤ) (ts : List ℤ) → All P ts → All P (since c ts)
since-All P c [] h = tt
since-All P c (t ∷ ts) h = ground (arith, since-All P c ts h.1)

pub since-IsOrdered : (c : ℤ) (ts : List ℤ) → IsOrdered ts → IsOrdered (since c ts)
since-IsOrdered c [] h = tt
since-IsOrdered c (t ∷ ts) h =
    ground (arith, since-IsOrdered c ts h.1, since-All (λ u. t ≤ℤ u) c ts h.0)

pub since-below :
    (now c : ℤ) (ts : List ℤ) → All (λ u. u ≤ℤ now) ts → All (λ u. u ≤ℤ now) (since c ts)
since-below now c ts h = since-All (λ u. u ≤ℤ now) c ts h

All-last : (P : ℤ → Type 0) (now : ℤ) (ts : List ℤ) → All P ts → P now → All P (ts ++ now ∷ [])
All-last P now [] h p = (p, tt)
All-last P now (t ∷ ts) h p = (h.0, All-last P now ts h.1 p)

pub below_later :
    (now later : ℤ) (ts : List ℤ) → now ≤ℤ later → All (λ u. u ≤ℤ now) ts → All (λ u. u ≤ℤ later) ts
below_later now later [] k h = tt
below_later now later (t ∷ ts) k h = (omega arith, below_later now later ts k h.1)

pub below_last :
    (now : ℤ) (ts : List ℤ) → All (λ u. u ≤ℤ now) ts → All (λ u. u ≤ℤ now) (ts ++ now ∷ [])
below_last now ts h = All-last (λ u. u ≤ℤ now) now ts h (omega arith)

pub IsOrdered-last :
    (now : ℤ) (ts : List ℤ) → IsOrdered ts → All (λ u. u ≤ℤ now) ts → IsOrdered (ts ++ now ∷ [])
IsOrdered-last now [] h k = (tt, tt)
IsOrdered-last now (t ∷ ts) h k =
    (All-last (λ u. t ≤ℤ u) now ts h.0 k.0, IsOrdered-last now ts h.1 k.1)

pub keep-last :
    (p : ℤ → Bool) (now : ℤ) (xs ys : List ℤ)
    → keep p xs ≡ keep p ys
    → keep p (xs ++ now ∷ []) ≡ keep p (ys ++ now ∷ [])
keep-last p now xs ys h = rw (keep-append p xs (now ∷ []), keep-append p ys (now ∷ []), h)

pub prune_idem : (cutoff : ℤ) (ts : List ℤ) → prune cutoff (prune cutoff ts) ≡ prune cutoff ts
unfolding prune
prune_idem cutoff [] = refl
prune_idem cutoff (t ∷ ts) = ground (arith, prune_idem cutoff ts)

-- Asking a counter twice at one time is asking it once.
pub exceeds_idem :
    (now : ℤ) (v : ℕ) (c : ScrollingCounter) → exceeds now v (exceeds now v c).1 ≡ exceeds now v c
unfolding exceeds count cutoff_at
exceeds_idem now v c = rw prune_idem
