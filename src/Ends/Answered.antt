-- ===== src/Ends/Answered.antt =====
-- A job that goes to an executor over the job queue, and the error that comes back over the error queue.
use lib_rabbit_job_queue.Common.{
  ℕ, ◌≡◌, ap, ◌∙◌, true, false, Option, none, some, [], ◌∷◌, ◌++◌, String,
}
use lib_rabbit_job_queue.Common.Int.{ℤ, IsInt}
use lib_rabbit_job_queue.Common.Duration.{Duration}
use lib_rabbit_job_queue.Messages.Libraries.{Jackson, JacksonLaws, Texts, TextsLaws}
use lib_rabbit_job_queue.Messages.{
  Parsed, JobDispatch, dispatch_to_json, dispatch_from_json, ErrorNotification, error_to_json,
  error_from_json,
}
use lib_rabbit_job_queue.Messages.Transport.{arrived}
use lib_rabbit_job_queue.Delivery.Handlers.{Handling, execute}
use lib_rabbit_job_queue.Delivery.{Delivered, deliver}
use lib_rabbit_job_queue.Delivery.Acknowledging.{tags, smooth, deliver-smooth}
use lib_rabbit_job_queue.Ends.{QueueConfig, Client, Connection, send_error, dispatch}
use lib_rabbit_job_queue.Ends.Publishing.{published, Serves, send_error_returns}
use lib_rabbit_job_queue.Ends.Notices.{Dispatcher, error_notice, error_ack, run_notice}
use lib_rabbit_job_queue.Ends.Arriving.{read, send_error-run_notice, dispatch-deliver}

-- What a job handler reports that finds its job failed, with an exit code.
abbrev pub failure_of :
    {Node HashId Time : Type 0}
    → JobDispatch HashId Time Node
    → ℤ
    → Option String
    → ErrorNotification HashId Node
failure_of job code message = record {
  job_id = job.job_id;
  code = code;
  attempt_count = job.attempt_count;
  message = message;
  body = none;
}

-- A job handler that sends the error and does nothing else, on the connection of its queue executor.
abbrev pub reporting :
    {Node Object HashId Time : Type 0}
    → Jackson Node Object
    → Texts HashId
    → Client
    → (Duration → Duration)
    → QueueConfig
    → Option String
    → Handling ℤ (JobDispatch HashId Time Node) (Connection Object)
reporting J ids client times_3_2 config message code job =
    send_error client times_3_2 config (error_to_json J ids (failure_of job code message))

module _ {Node Object HashId Time : Type 0} (J : Jackson Node Object) (laws : JacksonLaws J)
    (ids : Texts HashId) (ids_laws : TextsLaws ids) (times : Texts Time)
    (times_laws : TextsLaws times) (client : Client) (times_3_2 : Duration → Duration)
    (config : QueueConfig) where
  module _ {E F S U : Type 0} (handle_error : Handling E (ErrorNotification HashId Node) S)
      (handle_success : Handling F U S) (success_from : Object → Parsed U) where
    -- A job whose number of attempts is an `Int`, and which is dispatched where RabbitMQ's calls return, is
    -- published once, to the job queue. The executor that gets it, with one handler that reports a failure
    -- with an exit code that is an `Int`, publishes one error notification, to the error queue, if RabbitMQ's
    -- calls return there too, and acknowledges the job once. A dispatcher that gets the notification gives it
    -- to its error handlers under the id of the job that was dispatched, with its number of attempts, the code
    -- and the message, and acknowledges it once whatever they throw.
    pub dispatch-run_notice :
        (job : JobDispatch HashId Time Node) (sender worker : Connection Object) (code : ℤ)
        (message : Option String) (timeout : Duration) (tag tag' : ℕ) (d : Dispatcher E F) (s : S)
        → IsInt job.attempt_count
        → IsInt code
        → Serves client sender.opened
        → Serves client worker.opened
        → (o o' : Object) × (published
              (dispatch client times_3_2 config (dispatch_to_json J ids times job) sender).1.calls
            ≡ published sender.calls ++ (config.job_queue_name, o) ∷ [])
          × (let r =
                deliver
                  (reporting J ids client times_3_2 config message)
                  (code ∷ [])
                  timeout
                  tag
                  smooth
                  worker
                  (read (dispatch_from_json J ids times (J.sent o)))
                  worker in
              (r.threw ≡ false)
              × (tags r.log ≡ tag ∷ [])
              × (published r.world.calls
                  ≡ published worker.calls ++ (config.error_queue_name, o') ∷ []))
          × (run_notice handle_error handle_success
                (error_from_json J ids)
                success_from
                d
                (error_notice tag' (some (J.sent o')) true)
                s
              ≡ (let r =
                    execute handle_error d.error_handlers
                      (record (failure_of job code message) { body = some J.null_node })
                      s in
                  record { threw = r.0; world = r.1; acks = error_ack tag' ∷ [] }))
    dispatch-run_notice job sender worker code message timeout tag tag' d s count exit free busy =
        let got = record job { body = some (arrived J laws job.body) } in
        let (o, sent, given) =
          dispatch-deliver J laws ids ids_laws client times_3_2 config times times_laws
            (reporting J ids client times_3_2 config message) (code ∷ []) timeout job sender tag
            smooth worker worker count free in
        let (o', back, told) =
          send_error-run_notice J laws ids ids_laws client times_3_2 config handle_error
            handle_success success_from (failure_of got code message) worker d tag' s exit count
            busy in
        let (returns, acks, left) =
          deliver-smooth (reporting J ids client times_3_2 config message) code timeout tag worker
            got worker
            (send_error_returns client times_3_2 config
              (error_to_json J ids (failure_of got code message)) worker busy) in
        (
          o,
          o',
          sent,
          (
            ap (λ (r : Delivered (Connection Object)). r.threw) given ∙ returns,
            ap (λ (r : Delivered (Connection Object)). tags r.log) given ∙ acks,
            ap (λ (r : Delivered (Connection Object)). published r.world.calls) given
                ∙ ap (λ (c : Connection Object). published c.calls) left
                ∙ back,
          ),
          told,
        )
