-- ===== src/Ends.antt =====
-- QueueWrapper.kt and config/QueueConfig.kt, the sending ends of JobQueueDispatcher.kt and
-- JobQueueExecutor.kt, and the subscriptions that the dispatcher starts with.
pub mod Executor
pub mod Notices
pub mod Acked
pub mod Arriving
pub mod Answered
pub mod Publishing
pub mod Exhausted
pub mod Waiting
mod Tests
use lib_rabbit_job_queue.Common.{
  ℕ, suc, Bool, true, false, Option, none, some, List, [], ◌∷◌, ◌++◌, String, if◌then◌else◌,
}
use lib_rabbit_job_queue.Common.Int.{ℤ, wrap_int}
use lib_rabbit_job_queue.Common.Duration.{Duration, in_whole_milliseconds}
use lib_rabbit_job_queue.Settings.{
  ConnectionConfig, new_connection_config, ExecutorConfig, new_executor_config,
}

pub record QueueConfig : Type 0 where
  pub connection : ConnectionConfig
  pub job_queue_name : String
  pub error_queue_name : String
  pub success_queue_name : String
  pub executor : ExecutorConfig

pub new_queue_config : QueueConfig
new_queue_config = record {
  connection = new_connection_config;
  job_queue_name = "jobs";
  error_queue_name = "errors";
  success_queue_name = "successes";
  executor = new_executor_config;
}

-- What `configure` sets of RabbitMQ's connection factory.
pub record ConnectionFactory : Type 0 where
  pub host : String
  pub username : String
  pub password : String
  pub port : ℤ
  pub connection_timeout : ℤ

pub configure : QueueConfig → ConnectionFactory
configure config = record {
  host = config.connection.hostname;
  username = config.connection.username;
  password = config.connection.password;
  port = config.connection.host_port;
  connection_timeout = wrap_int (in_whole_milliseconds config.connection.timeout);
}

-- A call of RabbitMQ's client that returns. A channel is its number on the connection. A declaration has
-- the flags durable, exclusive and autoDelete, and the argument "x-consumer-timeout" if it is given. A
-- message is published to the default exchange as an object, whose text is what is sent.
pub data Call (Object : Type 0) : Type 0 where
  create_channel : ℕ → Call Object
  queue_declare :
      ℕ
      → String
      → (durable exclusive auto_delete : Bool) → (consumer_timeout : Option ℤ) → Call Object
  basic_publish : ℕ → String → Object → Call Object
  basic_consume : ℕ → String → (auto_ack : Bool) → Call Object

-- The answers of RabbitMQ's client for the channel of each number: whether the connection has it,
-- whether the queue is declared on it, and whether the call returns that it is used for.
pub record Client : Type 0 where
  pub has_channel : ℕ → Bool
  pub declares : ℕ → Bool
  pub uses : ℕ → Bool

-- A connection: how many channels were created on it, none of which the wrapper closes, and the calls
-- that were made, oldest first.
pub record Connection (Object : Type 0) : Type 0 where
  pub opened : ℕ
  pub calls : List (Call Object)

abbrev pub call : {Object : Type 0} → Call Object → Connection Object → Connection Object
call e c = record c { calls = c.calls ++ e ∷ [] }

module _ {Object : Type 0} (client : Client) (times_3_2 : Duration → Duration)
    (config : QueueConfig) where
  -- `connection.createChannel()`, which is null if the connection has no channel left; the declaration
  -- that follows throws then.
  abbrev pub new_channel : Connection Object → Option ℕ × Connection Object
  new_channel c =
      if client.has_channel c.opened
      then (some c.opened, call (create_channel c.opened) (record c { opened = suc c.opened }))
      else (none, c)

  -- `initErrorQueue` and `initSuccessQueue`.
  abbrev pub init_notice_queue : String → ℕ → Connection Object → Connection Object
  init_notice_queue name channel = call (queue_declare channel name true false false none)

  -- `initDispatchQueue`.
  abbrev pub init_dispatch_queue : ℕ → Connection Object → Connection Object
  init_dispatch_queue channel = call (
      queue_declare channel config.job_queue_name true false false
        (some (in_whole_milliseconds (times_3_2 config.executor.max_job_execution_time))))

  abbrev pub use_channel :
      (ℕ → Connection Object → Connection Object) → ℕ → Connection Object → Bool × Connection Object
  use_channel action channel c =
      if client.uses channel then (false, action channel c) else (true, c)

  -- A new channel on which a queue is declared and then used: whether that threw, and the connection.
  abbrev pub with_channel :
      (ℕ → Connection Object → Connection Object)
      → (ℕ → Connection Object → Connection Object)
      → Option ℕ × Connection Object
      → Bool × Connection Object
  with_channel init action (none, c) = (true, c)
  with_channel init action (some channel, c) =
      if client.declares channel then use_channel action channel (init channel c) else (true, c)

  abbrev pub with_dispatch_queue :
      (ℕ → Connection Object → Connection Object) → Connection Object → Bool × Connection Object
  with_dispatch_queue action c = with_channel init_dispatch_queue action (new_channel c)

  -- `withErrorQueue` and `withSuccessQueue`.
  abbrev pub with_notice_queue :
      String
      → (ℕ → Connection Object → Connection Object)
      → Connection Object
      → Bool × Connection Object
  with_notice_queue name action c = with_channel (init_notice_queue name) action (new_channel c)

  abbrev pub publish : String → Object → ℕ → Connection Object → Connection Object
  publish queue body channel = call (basic_publish channel queue body)

  abbrev pub consume : String → ℕ → Connection Object → Connection Object
  consume queue channel = call (basic_consume channel queue false)

  -- `dispatch`, `sendError` and `sendSuccess`, on what `toJson` makes of their messages.
  pub dispatch : Object → Connection Object → Bool × Connection Object
  dispatch job = with_dispatch_queue (publish config.job_queue_name job)

  pub send_error : Object → Connection Object → Bool × Connection Object
  send_error err = with_notice_queue config.error_queue_name (publish config.error_queue_name err)

  pub send_success : Object → Connection Object → Bool × Connection Object
  send_success msg =
      with_notice_queue config.success_queue_name (publish config.success_queue_name msg)

  abbrev pub and_call :
      Bool × Connection Object
      → (Connection Object → Bool × Connection Object)
      → Bool × Connection Object
  and_call (true, c) f = (true, c)
  and_call (false, c) f = f c

  -- `initCallbacks` of the dispatcher.
  pub init_callbacks : Connection Object → Bool × Connection Object
  init_callbacks c =
      and_call (with_notice_queue config.error_queue_name (consume config.error_queue_name) c)
        (with_notice_queue config.success_queue_name (consume config.success_queue_name))
