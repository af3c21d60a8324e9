-- ===== src/Sftp.antt =====
-- src/sftp.h and src/sftp.c: the object around an SFTP session of libssh2. The children hold the
-- methods that read it; opening, closing and freeing it is in `Store`.
pub mod Paths
pub mod Attrs
pub mod Table
pub mod Scope
pub mod Request
