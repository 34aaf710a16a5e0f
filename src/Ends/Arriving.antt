-- ===== src/Ends/Arriving.antt =====
-- What arrives at the other end of a queue.
use lib_rabbit_job_queue.Common.{
  ℕ, ◌≡◌, refl, Bool, true, false, Option, none, some, List, [], ◌∷◌, ◌++◌,
}
use lib_rabbit_job_queue.Common.Int.{IsInt}
use lib_rabbit_job_queue.Common.Duration.{Duration}
use lib_rabbit_job_queue.Messages.Libraries.{Jackson, JacksonLaws, Texts, TextsLaws}
use lib_rabbit_job_queue.Messages.{
  Parsed, parsed, rejected, JobDispatch, dispatch_to_json, dispatch_from_json, ErrorNotification,
  error_to_json, error_from_json,
}
use lib_rabbit_job_queue.Messages.Transport.{arrived, error_from_json-sent, dispatch_from_json-sent}
use lib_rabbit_job_queue.Delivery.Handlers.{Handling, execute}
use lib_rabbit_job_queue.Delivery.{Answers, deliver}
use lib_rabbit_job_queue.Ends.{QueueConfig, Client, Connection, send_error, dispatch}
use lib_rabbit_job_queue.Ends.Publishing.{published, Serves, send_error-sends, dispatch-sends}
use lib_rabbit_job_queue.Ends.Notices.{
  Dispatcher, error_notice, Ack, error_ack, run_notice, finally_ack,
}

-- What an executor's callback gets of a message: nothing where `fromJson` throws.
abbrev pub read : {A : Type 0} → Parsed A → Option A
read (parsed a) = some a
read (rejected why) = none

acked :
    {S : Type 0} (ack : Ack) (r : Bool × S)
    → finally_ack ack true r ≡ record { threw = r.0; world = r.1; acks = ack ∷ [] }
acked ack (true, s) = refl
acked ack (false, s) = refl

module _ {Node Object : Type 0} (J : Jackson Node Object) (laws : JacksonLaws J) {HashId : Type 0}
    (ids : Texts HashId) (ids_laws : TextsLaws ids) (client : Client)
    (times_3_2 : Duration → Duration) (config : QueueConfig) where
  module _ {E F S U : Type 0} (handle_error : Handling E (ErrorNotification HashId Node) S)
      (handle_success : Handling F U S) (success_from : Object → Parsed U) where
    -- An error notification whose numbers are an `Int` each, and which is sent where RabbitMQ's calls
    -- return, is published once, to the error queue. A dispatcher that gets it gives its error handlers
    -- the notification, with the body that arrived, and acknowledges it once whatever they throw, if
    -- `basicAck` returns.
    pub send_error-run_notice :
        (e : ErrorNotification HashId Node) (c : Connection Object) (d : Dispatcher E F) (tag : ℕ)
        (s : S)
        → IsInt e.code
        → IsInt e.attempt_count
        → Serves client c.opened
        → (o : Object) × (published
              (send_error client times_3_2 config (error_to_json J ids e) c).1.calls
            ≡ published c.calls ++ (config.error_queue_name, o) ∷ [])
          × (run_notice handle_error handle_success
                (error_from_json J ids)
                success_from
                d
                (error_notice tag (some (J.sent o)) true)
                s
              ≡ (let r =
                    execute handle_error d.error_handlers
                      (record e { body = some (arrived J laws e.body) })
                      s in
                  record { threw = r.0; world = r.1; acks = error_ack tag ∷ [] }))
    unfolding run_notice
    send_error-run_notice e c d tag s code count free =
        let o = error_to_json J ids e in
        (
          o,
          (send_error-sends client times_3_2 config o c free).1,
          rw (error_from_json-sent J laws ids ids_laws e code count) (
              acked (error_ack tag) (
                execute handle_error d.error_handlers
                  (record e { body = some (arrived J laws e.body) }) s)),
        )

  module _ {Time H S : Type 0} (times : Texts Time) (times_laws : TextsLaws times)
      (handle : Handling H (JobDispatch HashId Time Node) S) (handlers : List H)
      (job_timeout : Duration) where
    pub dispatch-deliver :
        (job : JobDispatch HashId Time Node) (c : Connection Object) (tag : ℕ) (a : Answers)
        (killed s : S)
        → IsInt job.attempt_count
        → Serves client c.opened
        → (o : Object) × (published
              (dispatch client times_3_2 config (dispatch_to_json J ids times job) c).1.calls
            ≡ published c.calls ++ (config.job_queue_name, o) ∷ [])
          × (deliver handle handlers job_timeout tag a killed
                (read (dispatch_from_json J ids times (J.sent o)))
                s
              ≡ deliver handle handlers job_timeout tag a killed
                  (some (record job { body = some (arrived J laws job.body) }))
                  s)
    dispatch-deliver job c tag a killed s count free =
        let o = dispatch_to_json J ids times job in
        (
          o,
          dispatch-sends client times_3_2 config o c free,
          rw (dispatch_from_json-sent J laws ids ids_laws times times_laws job count) refl,
        )
