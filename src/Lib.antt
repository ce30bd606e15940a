-- ===== src/Lib.antt =====
-- transcoderd: a server keeps a queue of video files to transcode in a database, and workers request
-- jobs, download the files, encode and upload them, and report events.
--
-- The parts and the files that model them (paths from the repository's root):
--   model/model.go, helper/max/max.go        Model/Events: events of a job and their queries
--   server/repository/repository.go          Server/Repository: tables, statements, transactions
--   server/repository/encoderSettings.go     Server/Repository/Limits: saved limits of workers
--   server/scheduler/scheduler.go            Server/Scheduler: Dispatch (RequestJob, CancelJob, who
--                                            may stream), Intake (scheduleJobRequest), Failures
--                                            (verifyFailureMessage), Maintenance, Completion
--                                            (completeJob), Reports (processEvent), Search
--                                            (ScheduleJobRequests)
--   server/scheduler/media.go                Server/Scheduler/Media: reviewed files that are queued
--   server/library/library.go                Server/Library/Paths: the paths of media files
--   server/scheduler/outputNaming.go         Server/Scheduler/Naming: names of outputs;
--                                            Publishing: the link to the first free name
--   server/scheduler/workerControls.go       Server/Scheduler/Controls: an operator's commands
--                                            and settings for a worker
--   server/repository/workerControls.go      Server/Repository/Controls: the commands in the
--                                            database; Memory: those of the in-memory repository
--   worker/worker/remoteControl.go, coordinator.go
--                                            Worker/Remote: how a worker takes over limits and
--                                            carries out commands; Protocol: both sides and the
--                                            network between them, with web/web.go's delivery;
--                                            Requests: the loop that requests jobs
--   path/filepath and os, as these use them  Server/Files: paths, files and hard links
--   helper/command/pause.go                  Worker/Pause: suspending encoding processes
--   worker/worker/encodeConcurrency.go       Worker/EncodePool: how many encodes of a class run
--   worker/worker/executor.go                Worker/Admission: limits, holds and pauses of the
--                                            executor; Worker/Slots: slots of accepted jobs
--   model/workerSettings.go, workerControl.go  Model/Settings: limits and commands
--   worker/config/schedule.go                Worker/Schedule: when jobs may be requested
--   worker/config/video.go, encoderProfiles.go  Worker/Encoders: settings and profiles of encoders
--   server/library/operations.go             Server/Library: background operations, bulk queueing;
--                                            Selection: the files of a batch
--   update/managed/manager.go, state.go, transaction.go
--                                            Update/Manager, Update/Fetch, Update/Step: one step
--                                            of the update manager
--   update/managed/manifest.go               Update/Manifest: which releases are accepted
-- Prelude holds the shared names and lemmas, Examples the runs on concrete inputs.
--
-- How state is modelled. The database is a record of tables (Store), a statement a function from the
-- tables to the tables and a result, chained by `>>=`; WithTransaction restores the tables where its
-- function fails. The trigger that copies each new event to job_status is part of the insertion. Rows
-- that an ORDER BY does not order come in the order of insertion. Job IDs, event IDs, sizes and times
-- are natural numbers; Go's constants of string type are data types; a probe is its JSON text. One
-- request reads the clock once. Columns hold texts of any length. UpdateJob is the one statement that
-- the database may fail to run; other failures of its connection are not modelled. What comes from outside (the time, a new ID, the probe of a file,
-- whether a file exists, whether a system call succeeds) is an argument. Mutexes are not modelled:
-- each operation is one step, as under its lock.
--
-- Files are an association list from paths to inodes with their bytes, which a number stands for; a
-- path is the list of its names, the innermost first. Update/Manifest/Windows has the rules by which
-- Windows takes a name below a directory. Directories have no entries and no permissions.
-- A completed event changes tables and files, which are a record of both (World).
--
-- Loops are structural recursion on the list that they walk. Two run on fuel: the one over the
-- weekdays of a range, for which seven steps are enough, as there are seven weekdays; and the one over
-- the candidates for the name of an output, which are all different, so that two steps more than there
-- are files are enough: one for the name of the source, and one for a name that is free.
--
-- How the parts interact. A completed job is published (Publishing, over Files), its row updated, its
-- event recorded and its source removed, in that order. The scheduler runs statements of the
-- repository, one transaction for each request that it takes in. A worker's executor asks for a job
-- only where Slots grants a slot, gives each encode to the pool, and holds and resumes the processes
-- through the pause controller; Slots has one command for each operation of these parts, and `perform`
-- runs them.
--
-- A command goes from the scheduler through the table to the worker's rounds, and its acknowledgement
-- back; Protocol has one step for each of these, in any order. The network may lose an acknowledgement,
-- deliver it late or more than once; the server refuses one whose text is longer than 512 bytes. The worker remembers the last command until it is restarted, so
-- the runs of Protocol are those of one worker process.
--
-- Not modelled: pings of workers, and the streams of files to and from them; the listing and scanning
-- of media files; the requests of the update manager and its files on disk; the rest of the
-- web server and the browser frontend, ffmpeg and the steps that call it, the Windows service and the
-- updater's system calls, the console, build scripts; of the in-memory repository, a stand-in for
-- tests, all but the commands to workers.
pub mod Prelude
pub mod Model
pub mod Server
pub mod Worker
pub mod Protocol
pub mod Update
pub mod Examples
