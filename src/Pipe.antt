-- ===== src/Pipe.antt =====
-- src/task_pipe.cpp: the command handlers of the worker.
pub mod Defs
pub mod Connection
pub mod Snapshot
pub mod Recording
pub mod Stream
pub mod Events
pub mod Entries
pub mod View
pub mod Starts
pub mod Stops
pub mod Reports
pub mod Tidy
pub mod Messages
pub mod Runs
pub mod Exclusive
pub mod SingleStream
pub mod Completions
pub mod Decode
pub mod Thread
pub mod Faults
mod Tests
