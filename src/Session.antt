-- ===== src/Session.antt =====
-- src/session.c: the methods of a session that neither open nor close an object. `startup` changes
-- the session object and is in `Store`, as are the methods that open and close.
pub mod Auth
pub mod Keyboard
pub mod Callback
pub mod X11
pub mod Answers
pub mod Agent
pub mod Identities
pub mod Setup
pub mod Table
pub mod Scope
pub mod Digest
