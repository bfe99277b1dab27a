-- ===== src/Lib.antt =====
-- PoolGate spreads the requests to a language-model provider over a pool of API keys. A service
-- (poolgate/services/provider.py, gemini_provider.py) takes a key from the scheduler for each attempt
-- of a request, calls the provider with it, and reports back how the call went; the scheduler chooses
-- among the available keys by a strategy; a key counts its requests, failures and latencies; and the
-- trackers count what the service did.
--
-- * Window.Sliding and Latency model poolgate/utils.py: `SlidingWindowCounter` (`record` is
--   `record_event`) and `LatencyTracker` (`record` is `record_sample`). Window.Rolling models
--   poolgate/tracking/rolling_window.py.
-- * Pool.Key models `APIKeyState` and Pool.KeyPool models `KeyPool` of poolgate/pool/key_pool.py, with
--   the names of their methods. Mask models `mask_key` of poolgate/core/logger.py.
-- * Pool.Strategy models poolgate/pool/strategies. The strategies are one data type with the state that
--   each keeps, and `select` is their `select` methods. The weights and the limits of the keys are whole
--   numbers there.
-- * Pool.Scheduler models `RequestScheduler` of poolgate/pool/scheduler.py. The scheduler owns the keys
--   in a list, and a key is referred to by its place in it.
-- * Retry models the classification of exceptions and the backoff of poolgate/services/retry.py.
-- * Tracking.Usage, Tracking.Request, Tracking.Token, Tracking.Account and Tracking.Manager model
--   poolgate/tracking/usage.py, request.py, token.py, account.py and manager.py: the counters of the
--   service, of the scopes, of the models and of the keys, and `TrackingManager`, which records each call
--   in all of them. Each tracker reads the date for itself, so a call has a date for each (`Dates`); a
--   read of a rolling window evicts from it, so it returns the tracker too.
-- * Persistence models `JSONPersistence` and `SQLitePersistence` of poolgate/tracking/persistence.py. The
--   json library is a record of operations (`Json`) with its laws (`JsonLaws`), how a
--   write goes is an argument (`Fate`), and the table of SQLite is a map by its primary key.
--   Persistence.Repository models `DailySnapshotRepository` of poolgate/persistence/snapshots.py.
-- * Session models poolgate/persistence/session.py; the id that `uuid4` draws is an argument.
-- * Quota models poolgate/throttling/quota.py and limiter.py, and Health the status of
--   poolgate/services/health.py. `check_rpm` and `record_request` are separate calls, each with a
--   reading of the clock, as in the source.
-- * Rotation models the rotating loops of poolgate/services/provider.py, and Gemini those of
--   poolgate/services/gemini_provider.py with the loops of its `stream` and `async_stream`: the calls of
--   the provider and the clock are an environment that the loop reads attempt by attempt. Streams models
--   the loops of `stream` and `async_stream` of the former. Books models their `_record_success` and
--   `_record_failure`: the trackers and the sessions that a request is written to.
-- * Provider models the calls around the rotation. Provider.serve is the body that they share, the checks,
--   `_resolve_session`, the config and the loop; `request_config` and `retries_of` are what
--   `RequestConfig` of poolgate/schemas/common/runtime.py validates of a config. Provider.Calls has `invoke`, `chat` and `invoke_tools` of
--   `GroqService`, with Media for moderation, transcription, translation and synthesis, Streams for the
--   streaming calls and Gemini for those of `GeminiService`. Provider.Structured models `structured` of
--   both, over the schema's parser as a parameter, Provider.Batch `batch_chat` of `GeminiService`, and
--   Provider.Messages the helpers on prompts and answers. Provider.Ledger calls the methods in any order.
-- * Registry models the tables of capabilities of poolgate/providers/registry.py and
--   poolgate/providers/gemini/models.py. Models has the limits of the models in
--   poolgate/providers/groq/models.py and how they are read from the environment, which gives each
--   variable as `int` reads it. Text has the methods of Python's `str` that the helpers use, on code
--   points.
-- * Common, Dict, Decimal, Int, Pick, Float and Result are what the parts share: lists over the native
--   numbers, Python's `dict`, f-string numbers, whole numbers, `max` and `min` with a key, floats and
--   exceptions. Tests applies the theorems at concrete inputs.
--
-- Clock readings, durations and latencies are whole microseconds. The floats of the health score are a
-- parameter (`FloatOps`), with laws of their comparison where a theorem needs them (`FloatLaws`). Python's
-- integers are unbounded, as the natural numbers are; the subtractions that stop at 0 in the source stop
-- at 0 here. The loop of `_next_key_id` runs on fuel, one more than the pool has keys, which is enough;
-- the rotating loop counts its attempts down, and the structured loop its rounds. A method under a lock
-- is one step.
--
-- Not modelled: a `weight` of a key that is not a whole number, which the source would read but nothing
-- sets, the log lines, the network clients, the bodies of the capabilities, the schemas, the
-- settings, the quotas read from response headers, the export and load of the account tracker, the
-- journal of requests, payloads that json cannot encode, the retry policies, which hand their loop to a
-- library, the batches that send their prompts concurrently, and requests that run at the same time as
-- another in one rotation.
pub mod Common
pub mod Dict
pub mod Window
pub mod Latency
pub mod Float
pub mod Pick
pub mod Mask
pub mod Pool
pub mod Result
pub mod Decimal
pub mod Int
pub mod Retry
pub mod Tracking
pub mod Rotation
pub mod Gemini
pub mod Streams
mod Tests
pub mod Session
pub mod Books
pub mod Persistence
pub mod Quota
pub mod Health
pub mod Text
pub mod Registry
pub mod Models
pub mod Provider
