-- ===== src/Settings/Checks.antt =====
-- What the checks of the setters keep, and what they do not.
use lib_rabbit_job_queue.Common.{◌≡◌, refl, true, false, List, [], ◌∷◌, String, arith, ap, ◌∙◌}
use lib_rabbit_job_queue.Common.Int.{ℤ, pos, ◌≤ℤ◌}
use lib_rabbit_job_queue.Settings.{
  is_blank, ConnectionConfig, ConnectionSetting, hostname, username, password, host_port, timeout,
  connection_factory, set_connection, set_connections, new_connection_config, ExecutorConfig,
  ExecutorSetting, workers, max_job_execution_time, job_timeout_callback, failure_policy,
  set_executor, set_executors, new_executor_config,
}

abbrev pub IsPort : ℤ → Type 0
IsPort n = (pos 1 ≤ℤ n) × (n ≤ℤ pos 65535)

set_connection-IsPort :
    (s : ConnectionSetting) (c : ConnectionConfig)
    → IsPort c.host_port
    → IsPort (set_connection s c).1.host_port
unfolding set_connection
set_connection-IsPort (hostname v) c h = ground arith
set_connection-IsPort (username v) c h = h
set_connection-IsPort (password v) c h = h
set_connection-IsPort (host_port v) c h = ground arith
set_connection-IsPort (timeout v) c h = h
set_connection-IsPort (connection_factory v) c h = h

set_connections-IsPort :
    (ss : List ConnectionSetting) (c : ConnectionConfig)
    → IsPort c.host_port
    → IsPort (set_connections ss c).host_port
unfolding set_connections
set_connections-IsPort [] c h = h
set_connections-IsPort (s ∷ ss) c h =
    set_connections-IsPort ss (set_connection s c).1 (set_connection-IsPort s c h)

-- Whatever is assigned to a new connection configuration, its port is between 1 and 65535.
pub new_connection_config-IsPort :
    (ss : List ConnectionSetting) → IsPort (set_connections ss new_connection_config).host_port
unfolding new_connection_config
new_connection_config-IsPort ss =
    set_connections-IsPort ss new_connection_config (omega arith, omega arith)

set_executor-workers :
    (s : ExecutorSetting) (c : ExecutorConfig)
    → pos 1 ≤ℤ c.workers
    → pos 1 ≤ℤ (set_executor s c).1.workers
unfolding set_executor
set_executor-workers (workers v) c h = ground arith
set_executor-workers (max_job_execution_time v) c h = h
set_executor-workers (job_timeout_callback v) c h = h
set_executor-workers (failure_policy v) c h = h

set_executors-workers :
    (ss : List ExecutorSetting) (c : ExecutorConfig)
    → pos 1 ≤ℤ c.workers
    → pos 1 ≤ℤ (set_executors ss c).workers
unfolding set_executors
set_executors-workers [] c h = h
set_executors-workers (s ∷ ss) c h =
    set_executors-workers ss (set_executor s c).1 (set_executor-workers s c h)

-- Whatever is assigned to a new executor configuration, it has at least one worker.
pub new_executor_config-workers :
    (ss : List ExecutorSetting) → pos 1 ≤ℤ (set_executors ss new_executor_config).workers
unfolding new_executor_config
new_executor_config-workers ss = set_executors-workers ss new_executor_config (omega arith)

set_connection-hostname :
    (s : ConnectionSetting) (c : ConnectionConfig)
    → is_blank c.hostname ≡ true
    → (set_connection s c).1.hostname ≡ c.hostname
unfolding set_connection
set_connection-hostname (hostname v) c b = rw (b, set_connection) refl
set_connection-hostname (username v) c b = refl
set_connection-hostname (password v) c b = refl
set_connection-hostname (host_port v) c b = ground arith
set_connection-hostname (timeout v) c b = refl
set_connection-hostname (connection_factory v) c b = refl

set_connections-hostname :
    (ss : List ConnectionSetting) (c : ConnectionConfig)
    → is_blank c.hostname ≡ true
    → (set_connections ss c).hostname ≡ c.hostname
unfolding set_connections
set_connections-hostname [] c b = refl
set_connections-hostname (s ∷ ss) c b =
    let e = set_connection-hostname s c b in
    set_connections-hostname ss (set_connection s c).1 (ap is_blank e ∙ b) ∙ e

set_connection-throws :
    (c : ConnectionConfig) (later : String)
    → is_blank c.hostname ≡ true
    → (set_connection (hostname later) c).0 ≡ true
unfolding set_connection
set_connection-throws c later b = rw (b, set_connection) refl

-- The check of the hostname looks at the old value: a blank one is accepted in place of one that is
-- not, and from then on, whatever is assigned, the hostname stays blank and its setter throws.
pub set_connection-blank :
    (c : ConnectionConfig) (blank later : String) (ss : List ConnectionSetting)
    → is_blank c.hostname ≡ false
    → is_blank blank ≡ true
    → ((set_connection (hostname blank) c).0 ≡ false)
      × ((set_connections ss (set_connection (hostname blank) c).1).hostname ≡ blank)
      × ((set_connection
            (hostname later)
            (set_connections ss (set_connection (hostname blank) c).1)).0
          ≡ true)
unfolding set_connection
set_connection-blank c blank later ss n b =
    let kept = set_connections-hostname ss (record c { hostname = blank }) b in
    rw (n, set_connection)
      (
        refl,
        kept,
        set_connection-throws (set_connections ss (record c { hostname = blank })) later
            (ap is_blank kept ∙ b),
      )

-- Where the setter of the workers returns, they are as given, and at least one.
pub set_workers :
    (w : ℤ) (c : ExecutorConfig)
    → (set_executor (workers w) c).0 ≡ false
    → ((set_executor (workers w) c).1.workers ≡ w) × (pos 1 ≤ℤ w)
unfolding set_executor
set_workers w c h = (ground arith, ground arith)
