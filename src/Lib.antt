-- ===== src/Lib.antt =====
-- The control plane of Restream_Plus: one RTMP feed in, one ffmpeg worker for each enabled target out.
-- The supervisor (app/fanout/supervisor.py) drives the run state, starts workers and publishes what
-- they report on a bounded bus, from which the API broadcasts to its clients. The domain layer
-- (app/domain) holds the state machines that these parts share; app/auth guards logins and sensitive
-- actions.
--
-- Which file models what:
-- Base and its children: tests, lists, equality, Python's dict (Dict) and sliding windows (Window).
-- Domain/RunState, Domain/WorkerState: app/domain/run_state.py and worker_state.py. A transition table
-- is an association list with the source's entries; `transition`, `is_legal` and `legal_actions` read
-- it as the code does. Exceptions of app/domain/errors.py are the error case of a Result.
-- Domain/CircuitBreaker: app/domain/circuit_breaker.py, one function for each method; a method that
-- changes the breaker returns the new one. Calls and Tracks relate it to a log that forgets nothing.
-- Domain/TargetTypes, Domain/Target, Domain/Health, Domain/Tile: app/domain/target_types.py,
-- credential_policy.py, target.py and health.py.
-- Fanout/EventBus: app/fanout/event_bus.py, `put` and the batches of `drain`.
-- Fanout/Worker, Fanout/Supervisor: app/fanout/worker.py and supervisor.py. A method is a function on the
-- tables, which returns them with the exception it raised, if any; what the database, the processes and
-- the audit do is in its Environment. `open_runs` are the rows of sessions_history that have no end yet;
-- `ends` says whether the end of a row can be written. A call that holds the lock is one step; `enable_target` tests the
-- state before it waits for the lock, so its locked part, `enable_locked`, is a step of its own.
-- Fanout/FfmpegWorker: the lifecycle task of app/fanout/ffmpeg_worker.py as a state machine whose steps are
-- the stretches between two awaits; an emission is under way until `resume`, but that
-- of the pump's change to RUNNING, which is one step with its frame. Fanout/Backoff:
-- app/fanout/backoff.py with reals for floats, rounded to a microsecond; Retries are the rounds of a worker whose process keeps
-- exiting, with its breaker, its backoff and the clock.
-- Fanout/Redaction: RedactionSink of app/fanout/redaction.py over bytes as numbers, the pattern as a matcher;
-- Pump is `_stderr_pump` of app/fanout/ffmpeg_worker.py; Reads and Output relate it to the lines of the whole
-- output (`lines_of`, `output_lines`). The line cap is an argument.
-- Repositories/Rows: app/repositories/_converters.py. Logging: app/logging_setup.py; Registry is
-- CredentialRegistry, Redact `_redact_string`, Values `_redact_value` and the processor.
-- Fanout/ProgressParser: app/fanout/progress_parser.py; `pump` is the loop of `_stdout_pump` that feeds it.
-- Decoding and the parsers of numbers are arguments. Its loop has fuel for each byte of the buffer and one round more.
-- Fanout/OutUrl: app/fanout/ffmpeg_urls.py and ffmpeg_args.py, with texts as lists of code points.
-- Auth/KeyMaterial: app/auth/key_material.py without the salt file. `unlock` is
-- cut where it awaits: `unlock` up to the lock, `enter` or `resume` up to the derivation, `finish`.
-- Auth/Sessions: SessionAuthService of app/auth/sessions.py, a call as one step, over the tables of
-- Repositories/Users and Repositories/HttpSessions (app/repositories/users.py and sessions.py); Auth/Passwords:
-- app/crypto/passwords.py. The hasher, the MAC and the fresh cookie value are arguments.
-- Auth/ApiTokens: app/auth/api_tokens.py over the table of Repositories/ApiTokens
-- (app/repositories/api_tokens.py); the patterns are matchers on lists of code points.
-- Auth/Deps: app/auth/deps.py; `authenticate` is what a protected handler depends on, Guards are lemmas on the guards.
-- Auth/RateLimit: the class LoginRateLimiter of app/auth/rate_limit.py; Auth/ClientIp its extract_client_ip,
-- over the two operations of `ipaddress` as arguments. Auth/Reprompts:
-- app/auth/reprompts.py.
-- Crypto/Aead: app/crypto/aead.py over a cipher with its two laws. Repositories/Credentials:
-- app/repositories/credentials.py. Api/Security: rotate_passphrase of app/api/security_api.py, with what the disk,
-- the database and the random source do in its RotateEnvironment; Sessions the list and the revocation of sessions,
-- with the hash of a fingerprint as an argument.
-- Api/Targets: app/api/targets.py over Repositories/Targets (app/repositories/targets.py); the supervisor is an argument
-- with its two operations, which Removal fills with the model of app/fanout/supervisor.py. Api/Accounts: app/api/auth.py; a request to unlock is cut where it awaits.
-- Api/Ws: the registry, ws_broadcaster and _forward_loop of app/api/ws.py. `run` of Api/Ws/Follows
-- interleaves broadcast events with rounds of one client's loop; a round that finds an empty queue
-- waits past the test of `overflowed`, as the code does. Handshake is `ws_endpoint` up to its loop; the keys of its
-- providers are those that are unlocked.
--
-- Times are numbers of microseconds and floats that are only carried are numbers in thousandths. Clock
-- readings, random ids and the Unicode normalization of user names are arguments. A comparison with
-- `now - window` is written with the window on the other side, so that no subtraction goes below zero.
-- Loops are recursions on lists, but for that of the sink's `feed`, which has fuel for each byte of the buffer and one
-- round more.
--
-- Not modelled: cancellation of a task that waits for a lock or a queue, the
-- envelopes of app/api/ws.py, SQL, HTTP, process and cryptographic calls, and the waiting of the event
-- loop; a method that holds a lock or does not await is one step. Start-up, the seeding of
-- the schema, the host statistics, the handlers of app/api/run.py and settings_api.py,
-- and the stall watcher of a worker are not modelled either.
pub mod Base
pub mod Domain
pub mod Fanout
pub mod Auth
pub mod Crypto
pub mod Repositories
pub mod Logging
pub mod Api
