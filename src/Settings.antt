-- ===== src/Settings.antt =====
-- config/ConnectionConfig.kt and ExecutorConfig.kt: the properties of the two configurations and their
-- setters, of which some check the new value.
pub mod Checks
pub mod Startup
mod Tests
use Prim.Native.Char.{code}
use Prim.Native.String
use lib_rabbit_job_queue.Common.{
  ℕ, ◌*◌, Bool, true, false, ◌||◌, ◌&&◌, Option, none, some, List, [], ◌∷◌, String, if◌then◌else◌,
  leb, ◌==◌,
}
use lib_rabbit_job_queue.Common.Int.{ℤ, pos, ltb_ℤ}
use lib_rabbit_job_queue.Common.Duration.{Duration, nanos_per_second}
use lib_rabbit_job_queue.Failure.Enforcer.{Policy}

-- `Char.isWhitespace()`: the separators of Unicode, and the control characters of Java's
-- `isWhitespace`.
abbrev pub is_whitespace : ℕ → Bool
is_whitespace c =
    (leb 9 c && leb c 13)
    || (leb 28 c && leb c 32)
    || (c == 160)
    || (c == 5760)
    || (leb 8192 c && leb c 8202)
    || (c == 8232)
    || (c == 8233)
    || (c == 8239)
    || (c == 8287)
    || (c == 12288)

-- `isBlank()`.
unfoldable pub is_blank : String → Bool
is_blank String.[] = true
is_blank (String.◌∷◌ c s) = is_whitespace (code c) && is_blank s

-- `connection_factory` is the number of the object that was assigned to `connectionFactory`, or nothing
-- while it is the one that the configuration was made with.
pub record ConnectionConfig : Type 0 where
  pub hostname : String
  pub username : String
  pub password : String
  pub host_port : ℤ
  pub timeout : Duration
  pub connection_factory : Option ℕ

pub new_connection_config : ConnectionConfig
new_connection_config = record {
  hostname = "rabbit";
  username = "guest";
  password = "guest";
  host_port = pos 5672;
  timeout = pos (5 * nanos_per_second);
  connection_factory = none;
}

-- An assignment of one of the properties.
pub data ConnectionSetting : Type 0 where
  hostname username password : String → ConnectionSetting
  host_port : ℤ → ConnectionSetting
  timeout : Duration → ConnectionSetting
  connection_factory : ℕ → ConnectionSetting

-- What an assignment leaves: whether its setter threw an IllegalArgumentException, and the object.
pub set_connection : ConnectionSetting → ConnectionConfig → Bool × ConnectionConfig
set_connection (hostname value) c =
    if is_blank c.hostname then (true, c) else (false, record c { hostname = value })
set_connection (username value) c = (false, record c { username = value })
set_connection (password value) c = (false, record c { password = value })
set_connection (host_port value) c =
    if ltb_ℤ value (pos 1) || ltb_ℤ (pos 65535) value
    then (true, c)
    else (false, record c { host_port = value })
set_connection (timeout value) c = (false, record c { timeout = value })
set_connection (connection_factory value) c = (false, record c { connection_factory = some value })

-- Assignments in turn, where the caller catches what the setters throw.
pub set_connections : List ConnectionSetting → ConnectionConfig → ConnectionConfig
set_connections [] c = c
set_connections (s ∷ ss) c = set_connections ss (set_connection s c).1

-- `job_timeout_callback` is the number of the user's function that was assigned, or nothing while it is the
-- one that does nothing.
pub record ExecutorConfig : Type 0 where
  pub workers : ℤ
  pub max_job_execution_time : Duration
  pub job_timeout_callback : Option ℕ
  pub failure_policy : Option Policy

unfoldable pub new_executor_config : ExecutorConfig
new_executor_config = record {
  workers = pos 5;
  max_job_execution_time = pos (15 * 60 * nanos_per_second);
  job_timeout_callback = none;
  failure_policy = none;
}

pub data ExecutorSetting : Type 0 where
  workers : ℤ → ExecutorSetting
  max_job_execution_time : Duration → ExecutorSetting
  job_timeout_callback : ℕ → ExecutorSetting
  failure_policy : Option Policy → ExecutorSetting

unfoldable pub set_executor : ExecutorSetting → ExecutorConfig → Bool × ExecutorConfig
set_executor (workers value) c =
    if ltb_ℤ value (pos 1) then (true, c) else (false, record c { workers = value })
set_executor (max_job_execution_time value) c = (false, record c { max_job_execution_time = value })
set_executor (job_timeout_callback value) c =
    (false, record c { job_timeout_callback = some value })
set_executor (failure_policy value) c = (false, record c { failure_policy = value })

unfoldable pub set_executors : List ExecutorSetting → ExecutorConfig → ExecutorConfig
set_executors [] c = c
set_executors (s ∷ ss) c = set_executors ss (set_executor s c).1
