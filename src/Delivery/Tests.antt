-- ===== src/Delivery/Tests.antt =====
-- Two handlers of one queue end, at which the theorems about a delivery are applied.
use lib_rabbit_job_queue.Common.{ℕ, ◌+◌, ◌≡◌, true, some, [], ◌∷◌, ltb, if◌then◌else◌}
use lib_rabbit_job_queue.Common.Int.{ℤ, pos}
use lib_rabbit_job_queue.Delivery.Handlers.{Handling}
use lib_rabbit_job_queue.Delivery.Acknowledging.{
  tags, is_settled, waits, IsWait, deliver-tags, deliver-waits,
}
use lib_rabbit_job_queue.Delivery.{Answers, deliver}

-- A handler adds its number to the world, and throws where the sum is above the message.
abbrev adding : Handling ℕ ℕ ℕ
adding h msg s = (ltb msg (s + h), s + h)

abbrev fine : Answers
fine = record {
  is_open = true;
  accepts = true;
  in_time = true;
  cancels = true;
  acks = true;
  reports = true;
}

abbrev minutes : ℕ
minutes = 900_000_000_000

deliver-tags_example :
    tags (deliver adding (1 ∷ 2 ∷ []) (pos minutes) 7 fine 0 (some 5) 0).log
    ≡ (if is_settled adding (1 ∷ 2 ∷ []) fine (some 5) 0 then 7 ∷ [] else [])
deliver-tags_example = deliver-tags adding (1 ∷ 2 ∷ []) (pos minutes) 7 fine 0 (some 5) 0

deliver-waits_example :
    (w : ℤ) × (waits (deliver adding (1 ∷ 2 ∷ []) (pos minutes) 7 fine 0 (some 5) 0).log ≡ w ∷ [])
    × IsWait (pos minutes) w
deliver-waits_example = deliver-waits adding (1 ∷ 2 ∷ []) minutes 7 fine 0 (some 5) 0
