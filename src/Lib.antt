-- ===== src/Lib.antt =====
-- A verification library for the workload runner and the fluid LSM compaction of
-- LSM-WorkloadAwareCompaction.
--
-- The core of the program is `FluidLSM` (include/fluid_lsm.h, src/fluid_lsm.cc), a listener of a RocksDB
-- database. On each flush, and at the end of each of its own compactions, it rebuilds a view of the tree
-- in which `K + 1` levels of RocksDB make up one fluid level, looks for levels with too many live runs
-- (more than K, or more than Z at the largest level), and hands the database a compaction of such a
-- level: into its own bottom level or one fluid level down, by the size of the input.
--
--   Prelude             Boolean tests, lists over the native numbers, integers and 64-bit words, faults.
--   Double              the arithmetic of `double` as a parameter, and an instance of its laws.
--   Buffer              Buffer (include/buffer.h, src/buffer.cc); Stream (what is put in and written), Adding,
--                       Instances and Lifecycle (the list of instances), Signals (the handler).
--   Env                 DBEnv (include/db_env.h); Default and Defaults, Instance (GetInstance), Rocksdb
--                       (the option types of RocksDB as far as they are set), Choices and Config (include/config_options.h), Arguments
--                       (include/parse_arguments.h), Sizes, Parsing and Configured (what is proved of
--                       the three).
--   Utils               src/utils.cc: PrintExperimentalSetup, UpdateProgressBar; Reports (RocksDB's counters,
--                       LogTreeState), Decimal (numbers as text), Columns (the table), Bar (the progress
--                       bar), Written (what the report adds to a log).
--   Workload            the loop of runWorkload (src/run_workload.cc); Requests (what a line asks for),
--                       Lines (the order of the requests), Times (the timers), Showing (the loop with its
--                       progress bar), Run (runWorkload as a whole and main, src/working_version.cc),
--                       Ending and Whole (what a run logs and leaves), Program (main as a whole).
--   Listeners           src/event_listners.cc: the flag of finished compactions; Waits (the waiting loop).
--   Stats               the statistics object (include/stats.h, src/stats.cc); Printing (printStats).
--   Clocks              src/aux_time.cc: the time between two readings of the clock; Elapsed.
--   Fluid.Structure     Run, LazyLevel, BuildStructure, NumLiveRuns, SizeInBytes,
--                       GetLargestOccupiedLevel; Bands (the arithmetic of levels), Placing, Slots,
--                       Files, Built and Build (what BuildStructure leaves), Counts (what the loops
--                       count), Live and Total (the sorted runs of the database).
--   Fluid.Compaction    ScheduleCompaction, PickCompaction, OnFlushCompleted, CompactFiles; State (the
--                       data and the constructor), Inputs (AddFilesToCompaction, GetCompactionSize,
--                       GetCompactionTargetLevel); Refs and Marking (pointers into the view), Target, Chosen and
--                       Slot (the choices of the levels), Picking (the loop), Flush (a flush from start to end),
--                       Handing and Interleaving (flushes and background tasks in any order), Racing
--                       and Dangling (the steps of two threads at once), Ended and Picked (what a pick
--                       has done when it ends), Limits (the limits K and Z at a flush), Merging, Named and Covering (what a compaction of the
--                       database takes away), Rounds, Quiet, Steady, Advancing, Settling and Bounded (flushes one
--                       after the other, each with its compaction to the end, carried out or failed).
--   Fluid.Printing      what FluidLSM prints in debug mode; Listing.
--   Samples and Tests below a part  small inputs, runs on them, and the theorems at them.
--
-- Around it, main parses the command line into the options of an experiment (DBEnv), configOptions makes
-- RocksDB's options of them, and runWorkload performs the lines of a workload file on the database, logs
-- through two Buffers, which a signal handler flushes, and reports with the functions of Utils. Nothing in
-- the repository adds the listeners (FluidLSM among them) to RocksDB's options.
--
-- State is a record that is passed on, and a fault of the code (an access out of range) is `none`. Loops
-- are recursions on the list that they walk or on the number of rounds left, so no fuel is needed. The
-- `int`s of FluidLSM are natural numbers: K, Z, T and the level numbers are not negative. Sums
-- of sizes wrap as 64-bit words do. Pointers into the view are triples of indices. What the database
-- returns (its metadata, the outcome of its CompactFiles) and what the argument parser makes of the command
-- line are arguments of the operations.
--
-- For Rounds, DB::CompactFiles is a relation between the levels before and after it (Compacts): the output
-- level is left open, the other levels lose the files that are taken, the given ones at least. Where it
-- fails, with an I/O error or another status, the levels stay.
--
-- The clock, the text of a `double` and whether assertions are compiled in are parameters of the run; the
-- arithmetic of `float` is one of the statistics, and the system's clock one of the clock helpers.
--
-- Not modelled: RocksDB and the argument parser, which are libraries; output of main and of runWorkload on
-- the error stream; the mutexes of FluidLSM, except in Racing and Dangling: elsewhere a pick is one step, as
-- is the decrement of the running compactions, which the code does not ensure; what a pointer into the view
-- reads once another thread has rebuilt the view; a signal within an operation on a buffer, except between
-- the two halves of a flush, and the mutex of the list of buffers; which of several equal objects of RocksDB
-- one is (statistics, cache, filter, factory); the clearing of the system's cache; the branch of the clock helpers for gettimeofday, which the build leaves out.
mod Prelude
pub mod Double
pub mod Buffer
pub mod Env
pub mod Utils
pub mod Workload
pub mod Listeners
pub mod Stats
pub mod Clocks
pub mod Fluid
