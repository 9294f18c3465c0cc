-- ===== src/Lib.antt =====
-- rocktick schedules HTTP calls. Clients write jobs, cron jobs and workflows to Postgres; schedulers
-- turn them into scheduled jobs; drones ask a broker for these, call their URLs, and send the outcomes
-- back. A drone keeps the outcomes in an SQLite store until the broker has them. Secrets (signing
-- keys) are stored encrypted, and a scheduler moves them to the newest master key.
--
-- Prelude: helpers with no code behind them: tables as lists of rows with a key (SELECT, UPDATE,
--   DELETE, upsert), dictionaries, integers over the native numbers, results with errors and panics.
-- Db: the rows of schema_pg.sql, and the INSERTs of the modelled schedulers with their constraints;
--   a violation gives `none`. Foreign keys are not modelled, nor are columns generated by Postgres.
-- Secrets: src/secrets.rs. KeyRing is the ring of master keys, Parse its form as a text, Secret
--   the encryption under them; Roundtrip and Reread have what one operation leaves for another.
-- Workflow: src/util/workflow.rs (Data, Context) and src/broker/workflow.rs (SideEffect).
-- Drone: src/drone/. Store/ is store/executions.rs: Store/Rows has the rows and values, Store/Ops one
--   function per method of `DroneStore`, its other modules what holds of them. Execute is `run_job` of
--   jobs.rs with the request as a parameter, Address util.rs, Sync dronesync.rs. Body, Timing and
--   Answer have what holds of `run_job`, alone and with the broker.
-- Scheduler: src/scheduler/. Run is the loop of mod.rs: a run of a worker commits, ends without a
--   commit (sqlx then drops what it wrote), reaches the end, or fails. KeyRotation is
--   util/key_rotate.rs, Tokens tenants/tokens.rs, Jobs/Cron, /OneOff and /Retry the files of jobs/
--   (Jobs/CronTimes and /CronLimits what holds of the first), Retention is retention/ with the UPDATEs of src/util/
--   that it shares, and
--   Workflow/NoExecutions, /PendingExecution and /WaitedExecution the files of workflow/.
-- Broker: src/broker/job.rs. HandOut is the statement of `get_jobs` and Spec what it sends; Record is
--   `record_execution`, for one report of a drone, and Reports the stream of them; Unlock is a pass of
--   `run_job_cleanup_loop`. Each is one step of the broker on the tables. Drones is drone.rs. States
--   sees a job as free, held or done, and Life has the three as steps in any order; Fair, Sent and
--   Once have what else holds of them.
-- Http, Signing: header rows, as several handlers write and split them, and src/signing.rs.
-- Api: src/api/. Base is mod.rs, Models models.rs, Limits the checks that the handlers of jobs and
--   cron jobs share, and LimitLaws what they ensure; Jobs is jobs.rs, with the changes in Jobs/Edit, Cron is cron.rs likewise;
--   Executions is executions.rs; Tenants and Signing are tenants.rs, the latter its signing secrets.
--   A handler gives the tables after it and its answer; what it wrote stays only if it commits.
-- Tests: the theorems at concrete inputs.
--
-- A statement with LIMIT 1 and no order takes the first row that fits; rows that another transaction
-- holds are a parameter (SKIP LOCKED). Parameters also are AES-GCM, the random bytes, UTF-8,
-- serde_json, croner, the generated ids, the hash of an id, the collation and the clocks. These are
-- the same in all rounds of a loop, so what is said of many rounds is said of one clock and one choice
-- of ids. Timestamps are microseconds without a bound. `i32` sums wrap around in Secrets and
-- Tokens; the other sums are taken as exact. A loop has a number of rounds as fuel: with more rounds
-- than there is work left, a worker sleeps or stops on an error. The walk along a chain of retries has
-- as fuel the number of scheduled jobs, which no chain without a cycle exceeds. Postgres refuses the
-- character U+0000 in a text: the INSERTs of requests, responses and executions of jobs do so here,
-- and elsewhere texts are taken to be free of it. The lengths of VARCHAR columns
-- and the errors of a connection are left out.
--
-- HMAC, the parsers of URLs and of cron schedules, and the texts of numbers and of database errors are
-- parameters as well, and so are the period and the step of a tenant's tokens, which are computed in
-- floating point. What SQL leaves open (ties of an order, rows without one) goes by the table's order.
--
-- Not modelled: the queue of a drone, ids, the routing of requests, the command line and the
-- connections.
pub mod Prelude
pub mod Db
pub mod Secrets
pub mod Workflow
pub mod Drone
pub mod Scheduler
pub mod Broker
pub mod Http
pub mod Signing
pub mod Api
pub mod Tests
