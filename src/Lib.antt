-- ===== src/Lib.antt =====
-- BehaviourSim API is a web service that runs simulations of user behaviour with the `behaviorsim`
-- package. Users have plans with monthly quotas; a simulation is a job with a lifecycle, run at
-- once in a request or later by a worker process; old jobs are deleted by a cleanup.
--
-- Base has the names that all modules share: tests on the native numbers, lists, and tables with
-- their select, update, delete and count. Dict has Python's dictionaries.
--
-- Store has the rows of app/db/models (Store/Rows), the state that the services share
-- (Store/State), actions that change the state and may raise (Store/Action), and what the code
-- takes from outside (Store/Env): the calendar, the simulator, and whether the commits succeed
-- whose failure the code handles.
--
-- Metrics is OperationalMetrics of app/core/metrics.py, but for get_summary, of which Diagnostics
-- has what the health indicators read.
--
-- Usage is app/services/usage.py and app/services/plan.py: periods, rows of monthly usage,
-- reservation, refund and events; Usage/Summary is the summary, and what it says of the next
-- reservation. Its other children are about the periods (Usage/Period), the counts that rows stand
-- for (Usage/Counts), a reservation (Usage/Charge, Usage/Quota), a refund (Usage/Refund) and
-- histories of both (Usage/History).
--
-- Presets is app/services/simulation.py: the table of presets, names and their normal form
-- (Presets/Names), the spelling of names (Presets/Spelling), validation (Presets/Validity) and the
-- call of the simulator (Presets/Execute). Names are code points; strip and lower are Python's on
-- Latin-1 space and ASCII letters.
--
-- Jobs is app/services/simulation_job.py: transitions, creation and execution of a job.
-- Jobs/Lifecycle is the table of transitions as a relation, Jobs/Steps, Jobs/Reservation and
-- Jobs/Execution are about how a run ends, Jobs/Charging about what it costs.
--
-- Worker is the claim of app/services/worker.py, and Worker/Process the heartbeat and the run of a
-- claimed job. Worker/Order is about the jobs looked at, Worker/Claim, Worker/Loop, Worker/Next,
-- Worker/Limits and Worker/Progress about the claim, and Worker/Discard about the end of a claimed
-- job. Worker/Cycle is run_once of app/worker.py, which puts the claim and the run together.
--
-- Retention is app/services/retention.py; Retention/Batch is about one batch, Retention/Loop about
-- the cleanup. The loop takes fuel; each step but the last deletes a job, so one more than the
-- number of jobs is enough. All other loops are structural.
--
-- Simulations is app/api/v1/simulations.py: the answers (Simulations/Responses), run_simulation
-- (Simulations/Runs), list_simulations (Simulations/History), get_simulation and delete_simulation
-- (Simulations/Access). Simulations/Admission and Simulations/Submission are about what a queued
-- run costs, Simulations/Slots about the slot of a synchronous one, Simulations/Pages about the
-- pages of a listing, Simulations/Privacy about what the answers depend on, Simulations/Deletion
-- about a deletion.
--
-- Auth is who calls the service: app/core/security.py (Auth/Security), app/services/api_key.py
-- (Auth/Keys), the sessions and the identities of app/auth/service.py (Auth/Sessions,
-- Auth/Identities) and get_current_principal of app/core/auth.py (Auth/Principals). SHA-256 and the
-- secrets are parameters. Auth/KeyLimits is about the number of keys, Auth/KeyChecks about what a
-- key opens, Auth/Lifetime about a session, Auth/Accounts about accounts, Auth/Credentials about
-- principals. Auth/Providers is app/auth/providers, with the answers of GitHub and Google and
-- Pydantic's EmailStr as parameters, and Auth/Callback is oauth_callback and logout of
-- app/api/v1/auth.py; Auth/Answers and Auth/Confirmation are about the answers behind an identity,
-- Auth/SignIn about who gets a session.
--
-- Diagnostics is app/api/v1/diagnostics.py: the queue's counts and ages behind a cache, and the
-- health indicators; Diagnostics/Freshness is about the age of an answer.
--
-- Concurrency is ConcurrencyLimiter of app/core/concurrency.py. RateLimit is InMemoryRateLimiter of
-- app/core/rate_limit.py; RateLimit/Sweep is about its dictionary, RateLimit/Window about the
-- sliding window. Tests has concrete data and the theorems at that data.
--
-- A UUID is a number, and the supply of new ones is a counter. An instant is a number of
-- microseconds, read once in each stretch of code that makes no call to the simulator; the
-- simulator's time passes on the clock. Durations in float milliseconds are microseconds. A
-- statement of a service runs alone: other processes act between the statements only where a
-- parameter says so, the locked rows of a claim or a batch and what happens while a worker runs the
-- simulator. A failed commit leaves the rows as they were; until rollback(), each further statement
-- of its session raises (unless_lost).
--
-- Not modelled: the branch of get_or_create_monthly_usage for a concurrent insert; logging; the
-- redirect of oauth_login and the URLs of the providers; the endpoints of keys, accounts, usage,
-- presets and health under app/api; configuration, middleware, migrations and process loops, which
-- call the services or the libraries around them.
pub mod Base
pub mod Dict
pub mod Store
pub mod Metrics
pub mod Usage
pub mod Presets
pub mod Jobs
pub mod Worker
pub mod Retention
pub mod Concurrency
pub mod RateLimit
pub mod Simulations
pub mod Auth
pub mod Diagnostics
mod Tests
