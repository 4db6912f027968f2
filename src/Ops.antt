-- ===== src/Ops.antt =====
-- The FUSE handlers of wowFS/unreliablefs/unreliablefs_ops.c. A handler's result is its return
-- value, with what it wrote through its pointers beside it. Logging is left out.
pub mod Prologue
pub mod Directory
pub mod Local
pub mod Attributes
pub mod Io
pub mod Close
pub mod Open
pub mod Keeps
pub mod KeepsNames
pub mod Opens
pub mod Fetches
pub mod FetchFails
pub mod CloseToOpen
pub mod Session
pub mod Queue
pub mod Reorder
pub mod Bytes
pub mod ServerFirst
