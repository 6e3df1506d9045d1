-- ===== src/Lib.antt =====
-- Verification of the Freezeit daemon, the Rust program of freezeitDaemon that freezes Android
-- applications in the background and thaws them when they come back.
--
-- The program's core is the control pass of freezeitDaemon/src/app/controller.rs. A pass walks the
-- manager's application records, lists the processes of each uid, asks the freezer backend for a
-- decision, and freezes, stops, terminates or thaws all processes of the application in one
-- transaction, keeping account of what it froze and how.
--
-- Which file models which part:
--   Base            texts, maps ordered by key, Boolean tests and fixed-width arithmetic.
--   Domain          the data of freezeitDaemon/src/domain and the error type of app/error.rs.
--   Inventory       app/package_inventory.rs: protected packages and identity reconciliation.
--   Backend         app/freezer_backend.rs: `can_freeze` and the fallback decisions.
--   Log             app/operation_log.rs: the bounded log.
--   Deferral        app/download_deferral.rs: downloads that postpone a freeze.
--   Foreground, Health, Scheduler
--                   app/foreground.rs, app/health.rs and app/scheduler.rs.
--   Settings        protocol/manager_v1.rs: the normal form of the stored settings.
--   Ledger          sys/procfs.rs: the ledger of stopped processes and its sidecar. `Encoding` is the
--                   text of the two files, `Files` the calls of the file system with their laws,
--                   `Operations` the operations, `Refinement` and `Promotion` what they do to the
--                   ledger as one map, and `Claims` runs of them.
--   Protocol        protocol/manager_v1.rs and protocol/xposed.rs: `Frames`, `Commands` and
--                   `Records` are the wire formats, `Setting` the change of one setting, and
--                   `Hook` the reading of the hook's health report.
--   ManagerLog      app/logging.rs: the log that the manager reads.
--   Control         app/controller.rs. `State` is `RuntimeControlState` and its methods; `World` has
--                   the closures that stand for the device; `Transaction` and `Signal` are the
--                   transactions, `Thaw` the thawing, `Settings` the reading of the manager's
--                   records and settings, `Audit` the timer of the audits, `Live` the
--                   reconciliation with the kernel, `Recovery` the recovery after a restart,
--                   `Status` the reports to the manager, and `Pass` the control pass itself:
--                   `Pass.Record` handles one record, `Pass.Freeze` one decision, and
--                   `Pass.Fallback` what follows a freeze that failed.
--   Tests           a small device, and the theorems on concrete inputs.
--
-- How the code corresponds: a `&mut` state is an argument and a result, an early `continue` or
-- `return` is a branch, and `?` ends the pass with the error and the state reached. `BTreeMap` and
-- `BTreeSet` are association lists sorted by key. Numbers are natural numbers; sums that the code
-- makes in `u128` and `u64` wrap, `saturating_add` saturates, and differences are taken only where
-- the code's are not negative or saturate. A `String` is the list of its character codes.
--
-- The device is a record `Env W` of functions on a state `W` of the outside world: the listing of
-- processes, the validation of an identity, freezing, unfreezing and SIGKILL, the byte counter,
-- the SIGSTOP ledger and the binder probe. Nothing is assumed of it, except where a theorem says
-- that its calls do what they report (`IsHonest`), or that they undo stop signals and frozen cgroups
-- apart (`ThawsApart`). `traced` adds a record of the calls made.
--
-- The ledger stands on a record `FileSystem W` in the same way, with the laws `IsFileSystem`: a call
-- changes only the file that it names, and a text that was written and renamed is the text read.
--
-- All loops are structural recursion over lists, so that no fuel is needed, but for the reading of
-- the health report. Skipping a JSON value counts down from twice the number of bytes that are left,
-- and the search for a field from that number. Both are enough, since every nested call and every
-- round has a byte less to read, or is the first value of an array that was just opened.
-- `Hook.Json` has the JSON values whose text `Hook.Skipping` is about: without white space between
-- their parts, and with numbers that are digits only.
--
-- Not modelled: the other accesses to /proc, cgroup files, binder, signals and sockets
-- (freezeitDaemon/src/sys), the handlers of the manager's commands but for the settings, configuration
-- files, the text of log records, startup, and
-- the Android application and module scripts beside the daemon.
pub mod Base
pub mod Domain
pub mod Inventory
pub mod Backend
pub mod Log
pub mod Deferral
pub mod Foreground
pub mod Scheduler
pub mod Health
pub mod Settings
pub mod Ledger
pub mod Protocol
pub mod ManagerLog
pub mod Control
pub mod Tests
