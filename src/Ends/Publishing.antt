-- ===== src/Ends/Publishing.antt =====
-- What a connection has published.
use lib_rabbit_job_queue.Common.{
  ℕ, suc, ◌≡◌, refl, ap, ◌∙◌, true, false, Option, none, some, List, [], ◌∷◌, ◌++◌, String,
  append-nil,
}
use lib_rabbit_job_queue.Common.Int.{ℤ}
use lib_rabbit_job_queue.Common.Duration.{Duration, in_whole_milliseconds}
use lib_rabbit_job_queue.Ends.{
  QueueConfig, Client, Call, create_channel, queue_declare, basic_publish, basic_consume,
  Connection, send_error, dispatch,
}

-- What was published, with the names of the queues.
abbrev pub published : {Object : Type 0} → List (Call Object) → List (String × Object)
published [] = []
published (basic_publish channel queue o ∷ calls) = (queue, o) ∷ published calls
published (_ ∷ calls) = published calls

pub published-append :
    {Object : Type 0} (xs ys : List (Call Object))
    → published (xs ++ ys) ≡ published xs ++ published ys
published-append [] ys = refl
published-append (create_channel n ∷ xs) ys = published-append xs ys
published-append (queue_declare n q d e a t ∷ xs) ys = published-append xs ys
published-append (basic_consume n q a ∷ xs) ys = published-append xs ys
published-append (basic_publish n q o ∷ xs) ys = ap (◌∷◌ (q, o)) (published-append xs ys)

-- A call that opens a channel, declares a queue on it and publishes a message.
published-one :
    {Object : Type 0} (calls : List (Call Object)) (n : ℕ) (declared queue : String) (t : Option ℤ)
    (o : Object)
    → published (
        ((calls ++ create_channel n ∷ []) ++ queue_declare n declared true false false t ∷ [])
        ++ basic_publish n queue o ∷ [])
      ≡ published calls ++ (queue, o) ∷ []
published-one calls n declared queue t o =
    let created = calls ++ create_channel n ∷ [] in
    published-append (created ++ queue_declare n declared true false false t ∷ [])
      (basic_publish n queue o ∷ [])
    ∙ ap (λ ps. ps ++ (queue, o) ∷ [])
        (published-append created (queue_declare n declared true false false t ∷ [])
          ∙ append-nil _
          ∙ published-append calls (create_channel n ∷ [])
          ∙ append-nil _)

-- Every call for the channel of a number returns.
abbrev pub Serves : Client → ℕ → Type 0
Serves client n =
    (client.has_channel n ≡ true) × (client.declares n ≡ true) × (client.uses n ≡ true)

module _ {Object : Type 0} (client : Client) (times_3_2 : Duration → Duration)
    (config : QueueConfig) where
  pub send_error-sends :
      (e : Object) (c : Connection Object)
      → Serves client c.opened
      → ((send_error client times_3_2 config e c).1.opened ≡ suc c.opened)
        × (published (send_error client times_3_2 config e c).1.calls
            ≡ published c.calls ++ (config.error_queue_name, e) ∷ [])
  unfolding send_error
  send_error-sends e c (h, d, u) =
      let q = config.error_queue_name in
      rw (h, d, u) (refl, published-one c.calls c.opened q q none e)

  pub dispatch-sends :
      (job : Object) (c : Connection Object)
      → Serves client c.opened
      → published (dispatch client times_3_2 config job c).1.calls
        ≡ published c.calls ++ (config.job_queue_name, job) ∷ []
  unfolding dispatch
  dispatch-sends job c (h, d, u) =
      let q = config.job_queue_name in
      rw (h, d, u)
        (published-one c.calls c.opened q q
          (some (in_whole_milliseconds (times_3_2 config.executor.max_job_execution_time))) job)

  pub send_error_returns :
      (e : Object) (c : Connection Object)
      → Serves client c.opened
      → (send_error client times_3_2 config e c).0 ≡ false
  unfolding send_error
  send_error_returns e c (h, d, u) = rw (h, d, u) refl
