-- ===== src/Lib.antt =====
-- Chun-su: a host that runs jobs of AI workers for one owner, keeps their state in an embedded SQL
-- database with private files beside it, and hands results back to the conversation that asked.
--
-- The parts modelled here are those that decide what may happen to a job:
-- - internal/store/store.go, lifecycle.go, publication.go: the queue of jobs and the attempts at
--   them. Store/Jobs.antt has Submit, StartAttempt, FinishAttempt and CompletePublication under
--   those names in snake case, Store/Jobs/Recovery.antt RecoverInterrupted and Jobs,
--   Store/Workflow/Control.antt has Cancel, Store/Resume.antt has Resume of resume.go,
--   and Store/History.antt runs sequences of them.
-- - internal/store/workflow.go: jobs that are an ordered list of steps. Store/Workflow.antt has what
--   the operations share (stepListTx, resolvedInputs, pinInputsTx), and its children the operations:
--   Spec (validateSteps, SubmitStaged, AppendSteps), Ready (ReadyStep, ApproveStep), Claim (ClaimStep,
--   SaveStepArtifact), Complete (CompleteStep, RetryStep), Control (PauseJob, ResumeJob,
--   SupersedeJobRevision, RecoverInterruptedSteps, cancelStagedTx).
--   Store/Workflow/Calls.antt runs sequences of them.
-- - internal/store/result_events.go: Store/Results/Events.antt has the results of completed steps, and
--   Store/Results.antt their delivery, which completes the job at the end.
-- - internal/files/files.go and ReadArtifact, SaveArtifact of store.go: Store/Disk.antt and
--   Store/Artifacts.antt have the files and their rows; Store/Queries.antt has the listings.
-- - internal/store/schedule.go and internal/schedule/schedule.go: Schedule.antt has the schedules,
--   their occurrences (ticks), Schedule/Retries.antt the owner's decisions on them, and
--   Store/Settings.antt the pause of the queue. Schedule/Manager.antt has collect and collectJira,
--   and Schedule/Manager/Round.antt the loop of Manager.Step over the schedules (manager_step).
-- - internal/conversationstate/store.go: the conversations that a chat goes on with, outside the
--   database. Conversations.antt has the files, Conversations/Change.antt Change (change_with) and the
--   operations on one conversation (Append, Mark, LinkJob, IngestEvent, GuardAction),
--   Conversations/Switch.antt Ensure, Reset and Select, and Conversations/Timeline.antt History.
--   Conversations/Edits.antt and Calls.antt describe any use of them as a sequence of single writes.
-- - internal/errorreport/report.go: Errors.antt has Record (record_error), flush, Unpersisted and
--   Acknowledge, Errors/Reports.antt the reports and read, and Errors/Catalog.antt the catalogue.
-- - internal/telegram/client.go, state.go and health.go: Telegram.antt has RetryDelay, ErrorCode and the
--   cursor, Telegram/Send.antt Client.Send, for a reply given as the units that utf16.Encode
--   makes of it, and Telegram/Health.antt the receiver's heartbeat of health.go.
-- - internal/retention/retention.go: Retention/Plans.antt has Create and Read, Retention.antt Apply and
--   Pending, Retention/Inventory.antt inventory with HashFile and RemoveTree of
--   internal/files/copy.go. A Vault is a data home with the plans and the operations.
-- - internal/store/acquisition.go: Acquisitions.antt has SaveAcquisition, ReadAcquisition and the
--   queries, Acquisitions/Reports.antt Covered and RecordCoverage. An Intake has the two tables and the
--   files of the checkpoints.
-- - internal/ops/incidents.go: Incidents.antt has the data of model.go, Incidents/Notices.antt
--   planNotification and ReviewNotifications, Incidents/Assessed.antt applyAssessment,
--   Incidents/Evidenced.antt validateEvidence of commands.go, and Incidents/Changes.antt
--   applyIncidentChange, Policy.Validate and the branches of apply that lead to them (act), with
--   perform for a command that execute runs.
-- - internal/ops/ledger.go and internal/store/records.go: Ledger/Records.antt has PutRecord and
--   ReadRecord, Ledger.antt Load (load, replay) and validateCommand, Ledger/Execution.antt execute. They
--   hold for any contents of a scope: what a command does to them is an argument.
-- - internal/ops/commands.go: Operations/Apply.antt has apply, which they are used with, with the actions
--   on work items in Operations/Works.antt and those on release cycles in Operations/Releases.antt.
--   Operations.antt has the state of a scope (Book), and Operations/Sound.antt what holds of it.
-- Store/Status.antt and Store/Model.antt have the states and the rows, Store/Rows.antt the INSERT
-- statements with the constraints of internal/store/migrations, Store/Txn.antt the transactions, and
-- Table.antt the SQL statements over a table as a list of rows. Scenarios.antt and its children run
-- the operations at concrete inputs.
--
-- How the state corresponds. A table is a list of its rows in the order of insertion, and a query
-- with ORDER BY sorts them. An operation takes the database and returns the one that is committed with
-- the result that the caller sees; on an error the transaction is rolled back, but a file that was
-- written before it stays. ReadyStep and StartAttempt commit and return an error in one case each,
-- which Txn.exec_result keeps. Each number of affected rows that the code tests is counted.
-- SaveStepArtifact is no transaction: what other writers do between its two statements is an argument.
--
-- The files of the conversations and of the error reports are lists or functions by name; there an
-- operation returns the files with its result, and what was written before an error stays written.
-- The locks of these packages are the assumption that no other operation runs within one; Reset and
-- Select take what they read before they held them as an argument.
--
-- What is a parameter: the clock, the ids that files.ID draws, SHA-256, encoding/json and SQLite's
-- json_extract (the record Env, and Codec of Store/Resume.antt), and time.LoadLocation; for the files,
-- the number of bytes that encoding/json prints (ChatEnv, ErrorEnv), and,
-- for the error reports, what the system answers to locks, reads and writes,
-- and whether a write fails after it has replaced the file; the answers of the
-- Telegram server, together with the wait before a message, and platform.Identify; the collectors of internal/gmail
-- and internal/jira (the record Collectors), which may change jobs and acquisitions but no schedule
-- and no occurrence; for incidents and the ledger, time.Parse and Format, strings.TrimSpace, the texts that
-- encoding/json makes and the decoder of internal/mail (the records Tools, Json and Payloads, and Codec of
-- Ledger.antt), and whether the audit log takes an entry.
-- An operation reads the clock once, where the code reads it at each statement; each such reading is a time stamp
-- only.
--
-- Bounds. Ids are natural numbers and 0 is the empty text; times are milliseconds and, like revisions
-- and limits, natural numbers, so that the tests for negative ones fall away; int64 does not overflow
-- in the range of clock times. A status column holds only the declared constants. The counts of the
-- error reports are numbers of a uint64, with the addition that stops at the largest. In Incidents.antt
-- and Ledger.antt identifiers and times are texts, and the revision of an incident is a number of 64 bits
-- that wraps round; a policy that is set bounds the durations, so that they do not overflow. The loop
-- of Client.Send has as many rounds as the reply has units, and each takes one unit at least; every
-- other loop goes through a list or counts its rounds down.
--
-- Not modelled: failures of SQL statements and of the file system other than a file that is there or
-- is missing, foreign keys, the checks on links, owners and modes of files, bindings of
-- conversations over the limit of their file, records that do not decode, the migrations,
-- NormalizeObservation of internal/ops/input.go, and the packages that run processes or talk to other
-- services (internal/runner, executor, gmail, jira, telegramchat, webresearch and others), which reach this state only through the operations above.
pub mod Base
pub mod Table
pub mod Store
pub mod Conversations
pub mod Errors
pub mod Telegram
pub mod Retention
pub mod Acquisitions
pub mod Incidents
pub mod Ledger
pub mod Operations
pub mod Schedule
pub mod Scenarios
