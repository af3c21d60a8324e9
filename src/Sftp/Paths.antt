-- ===== src/Sftp/Paths.antt =====
-- The methods of src/sftp.c on paths: `unlink`, `rename`, `mkdir`, `rmdir`, `realpath`, `readlink`
-- and `symlink`.
use pylibssh.Prelude.{ℤ, pos, is_negative, is_zero, not, String, [], ◌∷◌, Option, given}
use pylibssh.Host.{Io, ◌>>=◌, invoke, parsed}
use pylibssh.Host.Types.{
  alloc, socket_send, socket_timeout, sftp_protocol, buffer_too_small, Value, py_none, bytes,
}
use pylibssh.Host.Calls.{
  sftp_unlink, sftp_rename, sftp_mkdir, sftp_rmdir, sftp_realpath, sftp_readlink, sftp_symlink,
}
use pylibssh.Report.{with_message, with_both, from_sftp, unless_failed, guarded}
use pylibssh.Handles.{Sftp, sftp_closed_text}
use pylibssh.Channel.Streams.{prefix}

unfoldable pub unlink : Sftp → Option String → Io Value
unlink self args = guarded self.sftp sftp_closed_text (
    parsed args λ path. do
      r ← invoke (sftp_unlink self.sftp path)
      unless_failed (not (is_zero r.rc)) self.session r.rc
          ((alloc, with_message "An internal memory allocation call failed: %s")
            ∷ (socket_send, with_message "Unable to send data on socket: %s")
            ∷ (socket_timeout, with_message "LIBSSH2_ERROR_SOCKET_TIMEOUT: %s")
            ∷ (sftp_protocol, from_sftp self.sftp)
            ∷ [])
          (with_both "Error while unlink an SFTP file %i: %s") py_none)

unfoldable pub rename : Sftp → Option (String × String) → Io Value
rename self args = guarded self.sftp sftp_closed_text (
    parsed args λ a. do
      r ← invoke (sftp_rename self.sftp a.0 a.1)
      unless_failed (is_negative r.rc) self.session r.rc
          ((alloc, with_message "An internal memory allocation call failed: %s")
            ∷ (socket_send, with_message "Unable to send data on socket: %s")
            ∷ (socket_timeout, with_message "LIBSSH2_ERROR_SOCKET_TIMEOUT: %s")
            ∷ (sftp_protocol, from_sftp self.sftp)
            ∷ [])
          (with_both "Error while renaming an SFTP file %i: %s") py_none)

-- 0755
abbrev pub default_mode : ℤ
default_mode = pos 493

unfoldable pub mkdir : Sftp → Option (String × Option ℤ) → Io Value
mkdir self args = guarded self.sftp sftp_closed_text (
    parsed args λ a. do
      r ← invoke (sftp_mkdir self.sftp a.0 (given default_mode a.1))
      unless_failed (not (is_zero r.rc)) self.session r.rc
          ((alloc, with_message "An internal memory allocation call failed: %s")
            ∷ (socket_send, with_message "Unable to send data on socket: %s")
            ∷ (socket_timeout, with_message "LIBSSH2_ERROR_SOCKET_TIMEOUT: %s")
            ∷ (sftp_protocol, from_sftp self.sftp)
            ∷ [])
          (with_both "Error while creating a directory on the remote file system %i: %s") py_none)

unfoldable pub rmdir : Sftp → Option String → Io Value
rmdir self args = guarded self.sftp sftp_closed_text (
    parsed args λ path. do
      r ← invoke (sftp_rmdir self.sftp path)
      unless_failed (is_negative r.rc) self.session r.rc
          ((alloc, with_message "An internal memory allocation call failed: %s")
            ∷ (socket_send, with_message "Unable to send data on socket: %s")
            ∷ (socket_timeout, with_message "LIBSSH2_ERROR_SOCKET_TIMEOUT: %s")
            ∷ (sftp_protocol, from_sftp self.sftp)
            ∷ [])
          (with_both "Error while removing an SFTP directory %i: %s") py_none)

-- The size of the buffer for the target of `realpath` and `readlink`.
abbrev pub target_len : ℤ
target_len = pos 2096

unfoldable pub realpath : Sftp → Option String → Io Value
realpath self args = guarded self.sftp sftp_closed_text (
    parsed args λ path. do
      r ← invoke (sftp_realpath self.sftp path target_len)
      unless_failed (is_negative r.rc) self.session r.rc
          ((alloc, with_message "An internal memory allocation call failed: %s")
            ∷ (socket_send, with_message "Unable to send data on socket: %s")
            ∷ (socket_timeout, with_message "LIBSSH2_ERROR_SOCKET_TIMEOUT: %s")
            ∷ (sftp_protocol, from_sftp self.sftp)
            ∷ (buffer_too_small, with_message "LIBSSH2_ERROR_BUFFER_TOO_SMALL: %s")
            ∷ [])
          (with_both "Error while realpath %i: %s") (bytes (prefix r.rc r.buffer)))

unfoldable pub readlink : Sftp → Option String → Io Value
readlink self args = guarded self.sftp sftp_closed_text (
    parsed args λ path. do
      r ← invoke (sftp_readlink self.sftp path target_len)
      unless_failed (is_negative r.rc) self.session r.rc
          ((alloc, with_message "An internal memory allocation call failed: %s")
            ∷ (socket_send, with_message "Unable to send data on socket: %s")
            ∷ (socket_timeout, with_message "LIBSSH2_ERROR_SOCKET_TIMEOUT: %s")
            ∷ (sftp_protocol, from_sftp self.sftp)
            ∷ (buffer_too_small, with_message "LIBSSH2_ERROR_BUFFER_TOO_SMALL: %s")
            ∷ [])
          (with_both "Error while readlink %i: %s") (bytes (prefix r.rc r.buffer)))

unfoldable pub symlink : Sftp → Option (String × String) → Io Value
symlink self args = guarded self.sftp sftp_closed_text (
    parsed args λ a. do
      r ← invoke (sftp_symlink self.sftp a.0 a.1)
      unless_failed (is_negative r.rc) self.session r.rc
          ((alloc, with_message "An internal memory allocation call failed: %s")
            ∷ (socket_send, with_message "Unable to send data on socket: %s")
            ∷ (socket_timeout, with_message "LIBSSH2_ERROR_SOCKET_TIMEOUT: %s")
            ∷ (sftp_protocol, from_sftp self.sftp)
            ∷ (buffer_too_small, with_message "LIBSSH2_ERROR_BUFFER_TOO_SMALL: %s")
            ∷ [])
          (with_both "Unable to sftp symlink %i: %s") py_none)
