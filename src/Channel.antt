-- ===== src/Channel.antt =====
-- src/channel.h and src/channel.c: the object around a channel of libssh2. The struct is `Channel`;
-- the children hold the methods that read it. Opening, closing and freeing it is in `Store`.
pub mod Requests
pub mod Streams
pub mod Status
pub mod Table
pub mod Protocol
pub mod Scope
pub mod Bounds
