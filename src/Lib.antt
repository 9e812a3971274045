-- ===== src/Lib.antt =====
-- Sim2Policy, the control plane of saas/backend/app: tenants sign in with a one-time code, upload
-- robots, save setups, have them prepared, and start custom training jobs, which a backend submits to
-- the provider and follows to their end. All durable state is in one SQLite file. Beside it, the campaign
-- controller of sim2policy/src/sim2policy, with which an operator drives the runs of the showcase, and
-- the selection of checkpoints of a run.
--
-- What models what, by path from the repository's root:
--   Models, Store.Database     saas/backend/app/models.py, the dataclasses of store.py and the schema
--                              of db.py: records with the source's fields, and one list of rows for
--                              each table, in the order of `rowid`
--   Store.Monad                a method of a store: it reads and changes the database, and returns or
--                              raises. `transaction` is the rollback of `with self._conn`.
--   Store.Jobs                 `JobStore` of store.py
--   Store.Preparations         `CustomTrainingStore` of store.py, its preparation attempts
--   Store.Starts               `reserve_training_job` of `CustomTrainingStore`
--   Store.Robots, Store.Setups `RobotStore` of store.py
--   Store.Auth, Auth           `AuthStore` of store.py and `AuthService` of auth.py
--   Orchestration.States       `map_nebius_state` of orchestration.py
--   Orchestration.Submission   `build_submission` and `build_preparation_submission`
--   Orchestration.Lifecycle    `_run`, `_poll`, `_complete` and `_fail` of `NebiusBackend`
--   Orchestration.Resume       `_start` and `resume` of `NebiusBackend`
--   Orchestration.Preparation  `_run_preparation`, `_poll_preparation`, `_finalize_preparation`,
--                              `_fail_preparation`, `_start_preparation` and `resume_preparations`
--   Orchestration.Mock         `MockBackend` of orchestration.py
--   Analytics                  `AnalyticsStore` of store.py and `daily_rollup_and_prune` of analytics.py
--   CustomTraining             custom_training.py: eligibility, the fingerprint, readiness, resolved jobs
--   Campaign.State             campaign_state.py of sim2policy/src/sim2policy: states of an attempt, the
--                              files of a campaign
--   Campaign.Commands          `_save_attempt`, `initialize`, `implementation_gate` of showcase_campaign.py
--   Campaign.Planning, Submission, Watching, Verification, Selecting, Examples, Cleanup
--                              its other commands that write; `classify_failure` of campaign_verify.py
--   Campaign.Effects           the effects that a command may have by its role, as a specification, which
--                              Campaign.Refinement relates to the commands by the rules of
--                              Campaign.Rules, and Campaign.Serialized to the one active attempt
--   Campaign.History           histories of commands, with their journal
--   Selection                  checkpoint_selection.py of sim2policy/src/sim2policy
--   Tests                      the operations and their theorems at concrete inputs
-- A component's child modules hold its theorems, each named for what it proves. Prelude holds the
-- tests, the lists and the SQL statements over lists of rows that the components share.
--
-- How the code is read. Identifiers, digests, addresses, hashes and free text that the code only stores
-- and compares are numbers (`Text`), 0 being the empty string; times are numbers of clock ticks. A value
-- that the source stores as JSON is stored as itself, less what `_attempt_json` drops. The constraints
-- of a table that an `INSERT` or `UPDATE` can violate (primary keys, partial unique indexes) are written
-- out, and raise `integrity_error`. A method holds its lock from beginning to end, so that calls are
-- sequential; readings of the clock, random tokens, hashes of codes and whether a mail was delivered
-- are arguments. What a backend's loop meets in the provider, the storage and the clock is a list of
-- rounds: a list that ends is a process that stopped, and the loop is then still running. A list in
-- which the clock passes the deadline, and with as many reads as the backend makes at most, is long
-- enough for a loop to end. All the text of the clock that one round writes is one stamp. The regular
-- expressions, the SHA-256 of a document and the settings of the backend are arguments; the test of a
-- run's id is one for `match` and `fullmatch`, which differ on a line break at the end. `resume` reads
-- the clock once for all jobs, and no thread ends while it runs. The requests for a code are in the
-- order in which they take the lock, and so are their readings of the clock, which are taken before it.
--
-- A command of the campaign holds the lock of the campaign from beginning to end, except that `watch`
-- reads and polls without it and takes it for each save. A command runs to its end: a process that stops
-- between the provider's submission and the save of its answer leaves a preflighted attempt, from which
-- `submit` calls the provider again, and is left out. A history is a sequence of such commands and of
-- saves of watchers on whatever they read before. A watch polls a list of rounds, of which it takes as
-- many as its greatest number of polls at most. A dict of the state file is a list in the order of its
-- keys. Floats are a type with an order, in which NaN is absent; means and deviations are arguments, and
-- so are the digests of plans, the names of attempts and runs, the evidence reader and the provider.
--
-- Not modelled: the HTTP layer, the mail transports, the S3 and provider clients, the XML validation of
-- robots, the static catalogues, the campaign's read-only commands, its probes and its matrix, and the
-- training, evaluation and rendering code of sim2policy, which is numeric or drives external processes.
pub mod Prelude
pub mod Models
pub mod Store
pub mod Auth
pub mod Analytics
pub mod Orchestration
pub mod CustomTraining
pub mod Campaign
pub mod Selection
mod Tests
