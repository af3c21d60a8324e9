-- ===== src/Report.antt =====
-- How a method turns a failed call of libssh2 into an exception: the block
-- `if (rc < 0) { … libssh2_session_last_error … switch (rc) { … } }` that src/session.c,
-- src/channel.c, src/sftp.c and src/listener.c repeat with other cases.
pub mod Honest
pub mod Uses
pub mod Null
pub mod Bounds
use pylibssh.Prelude.{ℤ, Bool, String, List, [], ◌∷◌, int_eq, if◌then◌else◌}
use pylibssh.Host.{Env, Io, pure, ◌>>=◌, invoke, fail_with}
use pylibssh.Host.Types.{Ptr, is_null_ptr, Code, ssh_error, arg_int, arg_str, Value}
use pylibssh.Host.Calls.{session_last_error, sftp_last_error}
use pylibssh.Errno.{errno_to_exception}

-- One case of such a switch: `PyErr_SetString`, `PyErr_Format` with the message of libssh2, with the
-- return code, with both, or the exception for the status of the SFTP session at hand.
pub data Report : Type 0 where
  plain : String → Report
  with_message : String → Report
  with_code : String → Report
  with_both : String → Report
  from_sftp : Ptr → Report

unfoldable pub raise : Report → ℤ → String → Io Value
raise (plain text) rc message = fail_with (ssh_error text [])
raise (with_message format) rc message = fail_with (ssh_error format (arg_str message ∷ []))
raise (with_code format) rc message = fail_with (ssh_error format (arg_int rc ∷ []))
raise (with_both format) rc message =
    fail_with (ssh_error format (arg_int rc ∷ arg_str message ∷ []))
raise (from_sftp sftp) rc message = do
  status ← invoke (sftp_last_error sftp)
  fail_with (errno_to_exception status.rc)

abbrev pub Cases : Type 0
Cases = List (Code × Report)

-- `switch (rc) { case …: … default: … }`, the labels being error codes.
unfoldable pub switch : Env → ℤ → Cases → Report → Report
switch env rc [] other = other
switch env rc ((code, report) ∷ cases) other =
    if int_eq rc (env.code code) then report else switch env rc cases other

unfoldable pub raise_case : ℤ → Cases → Report → String → Io Value
raise_case rc cases other message env h = raise (switch env rc cases other) rc message env h

-- After a call that returned a code: the message of libssh2 is used only if it belongs to that code.
unfoldable pub report_code : Ptr → ℤ → Cases → Report → Io Value
report_code session rc cases other = do
  last ← invoke (session_last_error session)
  raise_case rc cases other (if int_eq last.rc rc then last.text else "")

-- After a call that returned `NULL`: code and message are those of the session's last error.
unfoldable pub report_null : Ptr → Cases → Report → Io Value
report_null session cases other = do
  last ← invoke (session_last_error session)
  raise_case last.rc cases other last.text

-- The method goes on unless the call failed.
unfoldable pub unless_failed : Bool → Ptr → ℤ → Cases → Report → Value → Io Value
unless_failed failed session rc cases other done =
    if failed then report_code session rc cases other else pure done

-- `if(self->… == NULL) { PyErr_Format(…); return NULL; }` at the head of a method.
unfoldable pub guarded : Ptr → String → Io Value → Io Value
guarded handle closed body = if is_null_ptr handle then fail_with (ssh_error closed []) else body
