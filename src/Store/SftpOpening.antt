-- ===== src/Store/SftpOpening.antt =====
-- `open_dir`, `open_file`, `close_dir` and `close_file` of src/sftp.c.
use pylibssh.Prelude.{ℤ, String, [], ◌∷◌, Option, none, some, given, if◌then◌else◌}
use pylibssh.Host.{invoke, fail_with}
use pylibssh.Host.Types.{
  ObjId, Bytes, is_null_ptr, alloc, socket_send, socket_timeout, sftp_protocol, eagain, ssh_error,
  interpreter_error, Value, null, py_none, object,
}
use pylibssh.Host.Calls.{Reply, Kind, sftp_opendir, sftp_open}
use pylibssh.Report.{with_message, with_both, from_sftp, report_null}
use pylibssh.Flags.{get_flags}
use pylibssh.Sftp.Paths.{default_mode}
use pylibssh.Handles.{Sftp, sftp_closed_text}
use pylibssh.Store.Run.{
  Cmd, pure, ◌>>=◌, ◌>>◌, lift, sftp_slot, handle_slot, load, modify, retain, release,
}
use pylibssh.Store.Objects.{close_handle, dealloc_handle, set_directories, set_files}
use pylibssh.Store.Sessions.{discard_from}
use pylibssh.Store.Opening.{new_handle}

-- The head of each of these methods.
abbrev pub if_open : ObjId → (Sftp → Cmd Value) → Cmd Value
if_open id body = do
  self ← load sftp_slot id
  if is_null_ptr self.sftp then lift (fail_with (ssh_error sftp_closed_text [])) else body self

unfoldable pub track_dir : ObjId → Option ObjId → Cmd Value
track_dir id none = pure null
track_dir id (some item) = do
  modify sftp_slot id λ s. record s { directories = item ∷ s.directories }
  retain handle_slot item
  pure (object item)

unfoldable pub opendir : ObjId → Sftp → Option String → Cmd Value
opendir id self none = lift (fail_with interpreter_error)
opendir id self (some path) = do
  r ← lift (invoke (sftp_opendir self.sftp path))
  if is_null_ptr r.ptr
      then lift (
          report_null self.session
            ((alloc, with_message "An internal memory allocation call failed: %s")
              ∷ (socket_send, with_message "Unable to send data on socket: %s")
              ∷ (socket_timeout, with_message ": %s")
              ∷ (sftp_protocol, from_sftp self.sftp)
              ∷ (eagain, with_message "Marked for non-blocking I/O but the call would block: %s")
              ∷ [])
            (with_both "Unable to open sftp directory %i: %s"))
      else (new_handle Kind.dir self.session self.sftp r.ptr >>= track_dir id)

-- `PYLIBSSH2_Sftp_open_dir`
unfoldable pub open_dir : ObjId → Option String → Cmd Value
unfolding opendir
open_dir id args = if_open id λ self. opendir id self args

unfoldable pub track_file : ObjId → Option ObjId → Cmd Value
track_file id none = pure null
track_file id (some item) = do
  modify sftp_slot id λ s. record s { files = item ∷ s.files }
  retain handle_slot item
  pure (object item)

-- The call, whose flags are numbers of the environment.
unfoldable pub call_open : Sftp → String → Bytes → ℤ → Cmd Reply
call_open self path mode permissions env w =
    lift (invoke (sftp_open self.sftp path (get_flags env mode) permissions)) env w

unfoldable pub openfile : ObjId → Sftp → Option (String × Bytes × Option ℤ) → Cmd Value
openfile id self none = lift (fail_with interpreter_error)
openfile id self (some a) = do
  r ← call_open self a.0 a.1 (given default_mode a.2)
  if is_null_ptr r.ptr
      then lift (
          report_null self.session
            ((alloc, with_message "An internal memory allocation call failed: %s")
              ∷ (socket_send, with_message "Unable to send data on socket: %s")
              ∷ (socket_timeout, with_message ": %s")
              ∷ (sftp_protocol, from_sftp self.sftp)
              ∷ (eagain, with_message "Marked for non-blocking I/O but the call would block: %s")
              ∷ [])
            (with_both "Unable to open sftp file %i: %s"))
      else (new_handle Kind.file self.session self.sftp r.ptr >>= track_file id)

-- `PYLIBSSH2_Sftp_open_file`
unfoldable pub open_file : ObjId → Option (String × Bytes × Option ℤ) → Cmd Value
unfolding openfile
open_file id args = if_open id λ self. openfile id self args

unfoldable pub close_item : ObjId → Option ObjId → (ObjId → Cmd (Unit {0})) → Cmd Value
close_item id none close = lift (fail_with interpreter_error)
close_item id (some item) close = close item >> pure py_none

-- `PYLIBSSH2_Sftp_close_dir`
unfoldable pub close_dir : ObjId → Option ObjId → Cmd Value
unfolding close_item
close_dir id args = if_open id λ self. close_item id args λ dir. do
  discard_from self.directories (set_directories id) dir
      (release handle_slot dir (dealloc_handle dir))
  close_handle dir

-- `PYLIBSSH2_Sftp_close_file`
unfoldable pub close_file : ObjId → Option ObjId → Cmd Value
unfolding close_item
close_file id args = if_open id λ self. close_item id args λ file. do
  discard_from self.files (set_files id) file (release handle_slot file (dealloc_handle file))
  close_handle file
