-- ===== src/Ends/Exhausted.antt =====
-- How many messages a connection can send.
use lib_rabbit_job_queue.Common.{
  ℕ, zero, suc, ◌-◌, ◌≡◌, refl, sym, ap, ◌∙◌, true, false, List, [], ◌∷◌, ◌++◌, map, append_assoc,
  append-nil, take, arith, ltb, Bool-cases, inl, inr,
}
use lib_rabbit_job_queue.Common.Duration.{Duration}
use lib_rabbit_job_queue.Ends.{QueueConfig, Client, Connection, send_error}
use lib_rabbit_job_queue.Ends.Publishing.{published, send_error-sends}

-- A client whose connections have at most `max` channels, and whose calls return otherwise.
abbrev pub limited : ℕ → Client
limited max = record { has_channel = λ n. ltb n max; declares = λ n. true; uses = λ n. true }

module _ {Object : Type 0} (max : ℕ) (times_3_2 : Duration → Duration) (config : QueueConfig) where
  -- Error notifications that are sent one after the other, where the caller catches what `sendError`
  -- throws.
  pub send_errors : List Object → Connection Object → Connection Object
  send_errors [] c = c
  send_errors (e ∷ es) c = send_errors es (send_error (limited max) times_3_2 config e c).1

  send_error-full :
      (e : Object) (c : Connection Object)
      → ltb c.opened max ≡ false
      → (send_error (limited max) times_3_2 config e c).1 ≡ c
  unfolding send_error
  send_error-full e c h = rw h refl

  none_sent :
      (n : ℕ) (c : Connection Object)
      → published c.calls ≡ published c.calls ++ map (λ e. (config.error_queue_name, e)) (take n [])
  none_sent zero c = sym (append-nil _)
  none_sent (suc n) c = sym (append-nil _)

  -- The error notifications that are sent on a connection, whose calls return, are published in turn
  -- until it has as many channels as it may have, since each send takes a new one; of all later ones
  -- nothing is published.
  pub send_errors-published :
      (es : List Object) (c : Connection Object)
      → published (send_errors es c).calls
        ≡ published c.calls ++ map (λ e. (config.error_queue_name, e)) (take (max - c.opened) es)
  unfolding send_errors
  send_errors-published [] c = none_sent (max - c.opened) c
  send_errors-published (e ∷ es) c = elim (Bool-cases (ltb c.opened max)) [
    | inl y ↦
        let (one, sent) = send_error-sends (limited max) times_3_2 config e c (y, refl, refl) in
        let room : max - c.opened ≡ suc (max - suc c.opened) = ground arith in
        let rest = send_errors-published es (send_error (limited max) times_3_2 config e c).1 in
        rw room (
          rest
          ∙ rw (one, sent) (append_assoc (published c.calls) ((config.error_queue_name, e) ∷ []) _))
    | inr n ↦
        let none_left : max - c.opened ≡ 0 = ground arith in
        ap (λ c'. published (send_errors es c').calls) (send_error-full e c n)
        ∙ send_errors-published es c
        ∙ rw none_left refl
  ]
