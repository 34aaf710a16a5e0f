-- ===== src/Ends/Waiting.antt =====
-- The time that the broker gives a consumer of the job queue, next to the time that an executor waits
-- for a job.
use lib_rabbit_job_queue.Common.{
  ℕ, ◌*◌, ◌≤◌, ◌≡◌, refl, ap, ◌∙◌, true, false, Option, some, List, [], ◌∷◌, ◌++◌, String,
  append-nil, arith, Bool-cases, inl, inr,
}
use lib_rabbit_job_queue.Common.Int.{ℤ, pos, pos_part}
use lib_rabbit_job_queue.Common.Duration.{Duration, in_whole_seconds, in_whole_milliseconds}
use lib_rabbit_job_queue.Ends.{
  QueueConfig, Client, Call, create_channel, queue_declare, basic_publish, basic_consume,
  Connection, dispatch,
}

-- The queues that were declared, with their consumer timeouts in milliseconds.
abbrev pub declared : {Object : Type 0} → List (Call Object) → List (String × Option ℤ)
declared [] = []
declared (queue_declare n q d e a timeout ∷ calls) = (q, timeout) ∷ declared calls
declared (_ ∷ calls) = declared calls

declared-append :
    {Object : Type 0} (xs ys : List (Call Object))
    → declared (xs ++ ys) ≡ declared xs ++ declared ys
declared-append [] ys = refl
declared-append (create_channel n ∷ xs) ys = declared-append xs ys
declared-append (queue_declare n q d e a t ∷ xs) ys = ap (◌∷◌ (q, t)) (declared-append xs ys)
declared-append (basic_consume n q a ∷ xs) ys = declared-append xs ys
declared-append (basic_publish n q o ∷ xs) ys = declared-append xs ys

-- A channel is created, and a queue is declared on it.
declared-one :
    {Object : Type 0} (calls : List (Call Object)) (n : ℕ) (q : String) (t : Option ℤ)
    → declared ((calls ++ create_channel n ∷ []) ++ queue_declare n q true false false t ∷ [])
      ≡ declared calls ++ (q, t) ∷ []
declared-one calls n q t =
    declared-append (calls ++ create_channel n ∷ []) (queue_declare n q true false false t ∷ [])
    ∙ ap (λ ds. ds ++ (q, t) ∷ []) (declared-append calls (create_channel n ∷ []) ∙ append-nil _)

whole_seconds_in_milliseconds :
    (n m : ℕ)
    → n ≤ m
    → pos_part (in_whole_seconds (pos n)) * 1000 ≤ pos_part (in_whole_milliseconds (pos m))
unfolding in_whole_seconds in_whole_milliseconds
whole_seconds_in_milliseconds n m h = omega (arith, h)

module _ {Object : Type 0} (client : Client) (times_3_2 : Duration → Duration)
    (config : QueueConfig) (n m : ℕ) where
  -- Where the connection has a channel and the queue can be declared on it, a dispatcher that publishes a job, or
  -- fails to, declares the job queue and no other, and with a consumer timeout. That is no shorter than an executor with
  -- the same configuration waits for a job, where one and a half times the maximal execution time is no shorter than it,
  -- and it is not negative.
  pub dispatch-declared :
      (job : Object) (c : Connection Object)
      → config.executor.max_job_execution_time ≡ pos n
      → times_3_2 config.executor.max_job_execution_time ≡ pos m
      → n ≤ m
      → client.has_channel c.opened ≡ true
      → client.declares c.opened ≡ true
      → (timeout : ℤ) × (declared (dispatch client times_3_2 config job c).1.calls
          ≡ declared c.calls ++ (config.job_queue_name, some timeout) ∷ [])
        × (pos_part (in_whole_seconds config.executor.max_job_execution_time) * 1000
            ≤ pos_part timeout)
  unfolding dispatch
  dispatch-declared job c e t h has declares =
      let q = config.job_queue_name in
      let timeout = in_whole_milliseconds (times_3_2 config.executor.max_job_execution_time) in
      let calls =
        (c.calls ++ create_channel c.opened ∷ [])
        ++ queue_declare c.opened q true false false (some timeout) ∷ [] in
      let one = declared-one c.calls c.opened q (some timeout) in
      (
        timeout,
        elim (Bool-cases (client.uses c.opened)) [
          | inl u ↦
              rw (has, declares, u)
                (declared-append calls (basic_publish c.opened q job ∷ []) ∙ append-nil _ ∙ one)
          | inr n ↦ rw (has, declares, n) one
        ],
        rw (t, e) (whole_seconds_in_milliseconds n m h),
      )
