-- ===== src/Store.antt =====
-- The Python objects of the extension in memory, with their reference counts: what opening, closing
-- and freeing them does. A store of its own for each kind of object takes the place of the casts; a
-- load from an object that is not there, or of another kind, is a fault.
pub mod Run
pub mod Sets
pub mod Objects
pub mod Sessions
pub mod Returns
pub mod Entries
pub mod Resources
pub mod Closing
pub mod Shutdown
pub mod Twice
pub mod Creating
pub mod Startup
pub mod Opening
pub mod SftpOpening
pub mod Channels
pub mod Freeing
pub mod Owning
pub mod Rounds
pub mod Disconnect
pub mod Dealloc
pub mod Program
pub mod Files
pub mod Client
pub mod Threads
