-- ===== src/File.antt =====
-- src/sftpfile.c: the methods of an open file. Closing and freeing it is in `Store`.
pub mod Table
pub mod Scope
use pylibssh.Prelude.{
  ℤ, ℕ, pos, negsuc, is_negative, int_eq, Bool, Option, given, [], if◌then◌else◌,
}
use pylibssh.Host.{Io, pure, ◌>>=◌, ◌>>◌, invoke, set_error, fail_with, parsed}
use pylibssh.Host.Types.{
  Bytes, is_null_ptr, ssh_error, interpreter_error, Value, py_none, int, bytes,
}
use pylibssh.Host.Calls.{py_string_new, sftp_read, sftp_write, sftp_tell, sftp_seek}
use pylibssh.Report.{guarded}
use pylibssh.Handles.{Handle, file_closed_text}
use pylibssh.Channel.Streams.{prefix, shrink}

-- An exception of the interpreter is set and `None` is returned all the same.
unfoldable pub none_with_error : Io Value
none_with_error = set_error interpreter_error >> pure py_none

unfoldable pub read : Handle → Option (Option ℤ) → Io Value
read self args = guarded self.handle file_closed_text (
    parsed args λ a. do
      let size = given (pos 1024) a
      buffer ← invoke (py_string_new size)
      if is_null_ptr buffer.ptr then none_with_error else do
        r ← invoke (sftp_read self.handle size)
        if is_negative r.rc then pure py_none else do
          failed ← shrink r.rc size
          if failed then none_with_error else pure (bytes (prefix r.rc r.buffer)))

unfoldable pub write : Handle → Option Bytes → Io Value
write self args = guarded self.handle file_closed_text (
    parsed args λ buffer. do
      r ← invoke (sftp_write self.handle buffer)
      if is_negative r.rc
          then fail_with (ssh_error "Unable to write sftp." [])
          else pure (int r.rc))

unfoldable pub tell : Handle → Io Value
tell self =
    guarded self.handle file_closed_text do r ← invoke (sftp_tell self.handle); pure (int r.rc)

unfoldable pub seek : Handle → Option ℕ → Io Value
seek self args =
    guarded self.handle file_closed_text
      (parsed args λ offset. do invoke (sftp_seek self.handle offset); pure py_none)
