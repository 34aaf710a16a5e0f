-- ===== src/Delivery/Acknowledging.antt =====
-- Which deliveries are acknowledged, which throw, and how long a job is waited for.
use lib_rabbit_job_queue.Common.{
  ℕ, ◌+◌, ◌*◌, ◌≤◌, ◌<◌, ◌≡◌, refl, Bool, true, false, not, ◌&&◌, ◌||◌, Option, none, some, List,
  [], ◌∷◌, arith, if◌then◌else◌,
}
use lib_rabbit_job_queue.Common.Int.{ℤ, pos, pos_part, neg_part}
use lib_rabbit_job_queue.Common.Duration.{Duration, in_whole_seconds, nanos_per_second}
use lib_rabbit_job_queue.Delivery.Handlers.{Handling, execute, after_last}
use lib_rabbit_job_queue.Delivery.{
  Event, acknowledged, awaited, submitted, acknowledge, Answers, deliver, kill,
}

-- The delivery tags that a log acknowledges.
abbrev pub tags : List Event → List ℕ
tags [] = []
tags (acknowledged tag ∷ log) = tag ∷ tags log
tags (_ ∷ log) = tags log

module _ {H T S : Type 0} (handle : Handling H T S) (handlers : List H) where
  -- The job has its answer in time: no handler throws.
  abbrev pub succeeds : Option T → S → Bool
  succeeds none s = false
  succeeds (some dispatch) s = not (execute handle handlers dispatch s).0

  abbrev pub is_some : Option T → Bool
  is_some none = false
  is_some (some dispatch) = true

  -- The broker is to hear that the message is done with.
  abbrev pub is_settled : Answers → Option T → S → Bool
  is_settled a message s =
      a.is_open && is_some message && a.accepts && a.acks && (not a.in_time || succeeds message s)

  module _ (job_timeout : Duration) (tag : ℕ) (a : Answers) (killed : S) where
    -- A delivery is acknowledged at most once, with its own tag, and exactly when the channel is open,
    -- the message can be read, the thread pool takes the job, `basicAck` returns, and the job is either
    -- killed for its timeout or ends in time with no handler throwing.
    pub deliver-tags :
        (message : Option T) (s : S)
        → tags (deliver handle handlers job_timeout tag a killed message s).log
          ≡ (if is_settled a message s then tag ∷ [] else [])
    unfolding deliver kill
    deliver-tags none s = ground arith
    deliver-tags (some dispatch) s = ground arith

    -- A callback that throws has acknowledged nothing.
    pub deliver-threw :
        (message : Option T) (s : S)
        → (deliver handle handlers job_timeout tag a killed message s).threw ≡ true
        → tags (deliver handle handlers job_timeout tag a killed message s).log ≡ []
    unfolding deliver kill
    deliver-threw none s h = ground arith
    deliver-threw (some dispatch) s h = ground arith

-- The waits of a log for the answer of a job, in seconds.
abbrev pub waits : List Event → List ℤ
waits [] = []
waits (awaited w ∷ log) = w ∷ waits log
waits (_ ∷ log) = waits log

-- A number of seconds that is at most `d`, and less than a second shorter.
abbrev pub IsWait : Duration → ℤ → Type 0
IsWait d w =
    (neg_part w ≡ 0)
    × (pos_part w * nanos_per_second ≤ pos_part d)
    × (pos_part d < (pos_part w + 1) * nanos_per_second)

seconds-IsWait : (n : ℕ) → IsWait (pos n) (in_whole_seconds (pos n))
unfolding in_whole_seconds
seconds-IsWait n = (refl, omega arith, omega arith)

module _ {H T S : Type 0} (handle : Handling H T S) (handlers : List H) (n : ℕ) (tag : ℕ)
    (a : Answers) (killed : S) where
  -- The answer of a job is waited for once if the channel is open, the message can be read and the thread
  -- pool takes the job, and otherwise not at all. The wait is no longer than the maximal execution time, where that is
  -- not negative, and less than a second shorter, since the callback waits for whole seconds.
  pub deliver-waits :
      (message : Option T) (s : S)
      → (w : ℤ) × (waits (deliver handle handlers (pos n) tag a killed message s).log
          ≡ (if a.is_open && is_some handle handlers message && a.accepts then w ∷ [] else []))
        × IsWait (pos n) w
  unfolding deliver kill
  deliver-waits none s = (in_whole_seconds (pos n), ground arith, seconds-IsWait n)
  deliver-waits (some dispatch) s = (in_whole_seconds (pos n), ground arith, seconds-IsWait n)

-- The answers for a job that is taken and ends in time.
abbrev pub smooth : Answers
smooth = record {
  is_open = true;
  accepts = true;
  in_time = true;
  cancels = true;
  acks = true;
  reports = true;
}

acknowledge-smooth :
    {S : Type 0} (tag : ℕ) (w : ℤ) (r : Bool × S)
    → r.0 ≡ false
    → ((acknowledge tag true (submitted ∷ awaited w ∷ []) r).threw ≡ false)
      × (tags (acknowledge tag true (submitted ∷ awaited w ∷ []) r).log ≡ tag ∷ [])
      × ((acknowledge tag true (submitted ∷ awaited w ∷ []) r).world ≡ r.1)
acknowledge-smooth tag w (true, s) h = cc
acknowledge-smooth tag w (false, s) h = (refl, refl, refl)

-- One handler that returns: the callback returns, acknowledges the message, and leaves what the handler left.
pub deliver-smooth :
    {H T S : Type 0} (handle : Handling H T S) (h : H) (timeout : Duration) (tag : ℕ) (killed : S)
    (msg : T) (s : S)
    → (handle h msg s).0 ≡ false
    → ((deliver handle (h ∷ []) timeout tag smooth killed (some msg) s).threw ≡ false)
      × (tags (deliver handle (h ∷ []) timeout tag smooth killed (some msg) s).log ≡ tag ∷ [])
      × ((deliver handle (h ∷ []) timeout tag smooth killed (some msg) s).world
          ≡ (handle h msg s).1)
unfolding deliver execute
deliver-smooth handle h timeout tag killed msg s returns =
    rw (after_last handle (handle h msg s))
      (acknowledge-smooth tag (in_whole_seconds timeout) (handle h msg s) returns)
