-- ===== src/Pool/Leaking.antt =====
-- What the lost tail costs: the executor that could not be added is never closed.
use lib_rabbit_job_queue.Common.{Bool, false, ◌||◌, List, [], ◌∷◌, ◌==◌}
use lib_rabbit_job_queue.Pool.State.{Ref, Event, closed, opened, Pool}

-- Whether the channel of an executor has been closed.
abbrev pub is_closed : Ref → List Event → Bool
is_closed n [] = false
is_closed n (closed x ∷ log) = (n == x) || is_closed n log
is_closed n (_ ∷ log) = is_closed n log

-- Whether it has been opened.
abbrev pub is_opened : Ref → List Event → Bool
is_opened n [] = false
is_opened n (opened x ∷ log) = (n == x) || is_opened n log
is_opened n (_ ∷ log) = is_opened n log
