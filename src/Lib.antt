-- ===== src/Lib.antt =====
-- A model of lib-rabbit-job-queue: the executor pool of the Kotlin library and what decides when it
-- gives up, the ends of the queues that send and receive its messages, and the scripts of the published
-- documentation pages.
--
-- The library takes jobs from RabbitMQ queues. A pool holds a linked list of executors, each with a
-- channel of its own and a subscription to the job queue. When a consumer shuts down the pool's
-- callback runs: it marks a failure if the shutdown was not asked for, asks the failure enforcer
-- whether the whole pool is to stop, and otherwise replaces the executor. An enforcer follows a policy:
-- a number of failures in total, a number inside a window of time (by the scrolling counter), or
-- several policies of which any may say stop.
--
-- A dispatcher publishes jobs to the job queue and consumes the error and the success queue, whose
-- notifications its workers give to the handlers registered for them; a queue executor owns a pool,
-- whose deliveries run its job handlers, and publishes the notifications. Each of the two has a
-- connection and declares the queue, on a new channel, at each use. The documentation pages keep a
-- source-set filter, a tab and a theme in localStorage; when a page loads, its parts read them in turn.
--
-- Parts and files. Kotlin paths are below src/main/kotlin/org/veupathdb/lib/rabbit/jobs:
--   Common        tests on numbers, lists, and the integers and durations of the JVM with their
--                 wrap-around: Int 32 bits, UInt 32 bits, Long 64 bits
--   Failure/Counter  utils/ScrollingCounter.kt: inc, count, compareTo (`exceeds`), equals
--   Failure/Enforcer config/ExecutorFailurePolicy.kt, MaxFailureEnforcer.kt,
--                 WindowedFailureEnforcer.kt, AnyFailureEnforcer.kt: newEnforcer, markFailure,
--                 shouldHalt, reason; ExecutorConfig.getOrCreateFailureEnforcer
--   Pool          pools/exec/JobQueueExecutorPool.kt, and Executor.kt as far as the pool sees it:
--                 start, stop, stopNow, stopExecutors, createNew, onConsumerShutdown, add, remove;
--                 Pool/State has the fields and the store, Pool/Chain the list that a walk along
--                 `next` meets, Pool/Sound what holds of a pool whatever happened to it, Pool/Runs any
--                 operations in any order, with what a policy counts of them, and the other files below Pool one kind of theorem each
--   Delivery      pools/JobHandlers.kt, ErrorHandlers.kt, SuccessHandlers.kt (Delivery/Handlers), and
--                 the delivery callback of pools/exec/Executor.kt
--   Settings      config/ConnectionConfig.kt and ExecutorConfig.kt: the properties and their setters
--   Messages      model/JobDispatch.kt, ErrorNotification.kt and SuccessNotification.kt: fromJson and
--                 toJson; Messages/Libraries has what they use of Jackson, HashID and OffsetDateTime
--   Ends          QueueWrapper.kt, config/QueueConfig.kt, the senders of JobQueueExecutor.kt, its
--                 constructors and shutdown with pools/exec/ExecutorPoolConfig.kt (Ends/Executor),
--                 and JobQueueDispatcher.kt with its callbacks (Ends/Notices)
--   Docs          docs/dokka/scripts/platform-content-handler.js: Filter has the source-set filter,
--                 Tabs the bookmark rows, Sections the tabs, Anchors the anchor of the address, Theme the
--                 dark mode, Load the load listener with all of them and the left column, Visit the
--                 events on a page, before it has loaded (hash changes and their timers) and
--                 afterwards, and what the browser keeps of it for the next one; Selector the escapes of CSS in the anchor; Filter/Sets has
--                 the active filters as a set; docs/dokka/scripts/navigation-loader.js: Navigation,
--                 with the start of the script in Navigation/Start; docs/dokka/scripts/clipboard.js:
--                 Clipboard; Names and Texts have the array and the string functions
--
-- How state is modelled. An executor is a number, the key of its record in the store of the pool, so
-- that `prev` and `next` alias as the objects do. An operation takes the pool and returns a result and
-- the pool, or an exception and the pool as it was when it was thrown. The calls that leave the pool
-- are events of its log, newest first; the calls on a connection are in the order in which they were
-- made. A JSON text in localStorage is the value that it stands for. An element of a page is a number,
-- and an attribute or a class of the elements is a function of it or a field of a record. Timers fire in
-- the order in which they were set.
--
-- Parameters. The broker (whether a channel opens, whether basicConsume and basicAck succeed), the
-- answers of the thread pool and of its futures, the handlers, the readings of
-- System.currentTimeMillis and the failure checker are arguments, and so are Jackson, HashID and
-- OffsetDateTime, with the laws that a theorem relies on as its hypotheses. A callback of the broker
-- runs to its end before the next begins, and so does the run of a worker or a handler of a page.
-- Whether a connection has a channel left and whether the calls on it return, Kotlin's product of a
-- duration and 1.5, which elements a page has, and what execCommand does are arguments too. A
-- connection factory, a thread factory or a callback that a setting holds is a number.
--
-- Fuel. `stop_loop` has as much fuel as executors were ever made, and one: each round takes another
-- executor of a list without repetitions. `reason_fuel` has the depth of the enforcer, since each call
-- of `reason` goes one policy deeper. `reveal_parents` has the place of the menu's part, and one: a
-- parent stands before its children. `rounds` has the length of the page's id, and one: each round but
-- the last shortens it. The theorems that these operations return include that the fuel is enough.
--
-- Not modelled: log messages; `hashCode` of the counter; how far a page has scrolled, of which only the
-- element that it scrolls to is kept; the search and highlighting scripts main.js and prism.js, which are
-- bundles of other projects.
pub mod Common
pub mod Failure
pub mod Pool
pub mod Delivery
pub mod Settings
pub mod Messages
pub mod Ends
pub mod Docs
