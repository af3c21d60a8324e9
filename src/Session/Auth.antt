-- ===== src/Session/Auth.antt =====
-- Authentication in src/session.c: `userauth_authenticated`, `userauth_list`, `userauth_password`,
-- `userauth_publickey_fromfile` and `userauth_hostbased_fromfile`.
use pylibssh.Prelude.{is_negative, is_zero, not, String, [], ◌∷◌, Option}
use pylibssh.Host.{Io, pure, ◌>>=◌, invoke, parsed}
use pylibssh.Host.Types.{
  is_null_ptr, alloc, eagain, file, socket_send, socket_timeout, password_expired,
  authentication_failed, publickey_unverified, Value, py_none, int, str,
}
use pylibssh.Host.Calls.{
  userauth_authenticated, userauth_list, userauth_password, userauth_publickey_fromfile,
  userauth_hostbased_fromfile,
}
use pylibssh.Report.{plain, with_message, with_both, Cases, report_null, unless_failed}
use pylibssh.Handles.{Session}
use pylibssh.Prelude.{if◌then◌else◌}

unfoldable pub authenticated : Session → Io Value
authenticated self = do r ← invoke (userauth_authenticated self.session); pure (int r.rc)

-- The list of methods that the server accepts for a user.
unfoldable pub list : Session → Option String → Io Value
list self args = parsed args λ username. do
  r ← invoke (userauth_list self.session username)
  if is_null_ptr r.ptr
      then (report_null self.session
          ((alloc, with_message "An internal memory allocation call failed: %s")
            ∷ (socket_send, with_message "Unable to send data on socket: %s")
            ∷ (eagain, plain "Marked for non-blocking I/O but the call would block.")
            ∷ [])
          (with_both "Unknown error %i: %s"))
      else pure (str r.text)

unfoldable pub password : Session → Option (String × String) → Io Value
password self args = parsed args λ a. do
  r ← invoke (userauth_password self.session a.0 a.1)
  unless_failed (is_negative r.rc) self.session r.rc
      ((alloc, with_message "An internal memory allocation call failed: %s")
        ∷ (socket_send, with_message "Unable to send data on socket: %s")
        ∷ (password_expired, with_message "LIBSSH2_ERROR_PASSWORD_EXPIRED: %s")
        ∷ (
          authentication_failed,
          with_message "failed, invalid username/password or public/private key: %s",
        )
        ∷ [])
      (with_both "Unknown Error %i: %s") py_none

-- The cases that both methods with key files have, before others.
abbrev pub key_cases : Cases → Cases
key_cases others =
    (alloc, with_message "An internal memory allocation call failed: %s")
    ∷ (socket_send, with_message "Unable to send data on socket: %s")
    ∷ (socket_timeout, with_message "LIBSSH2_ERROR_SOCKET_TIMEOUT: %s")
    ∷ (publickey_unverified, with_message "The username/public key combination was invalid: %s")
    ∷ (
      authentication_failed,
      with_message "Authentication using the supplied public key was not accepted: %s",
    )
    ∷ (eagain, plain "Marked for non-blocking I/O but the call would block.")
    ∷ others

unfoldable pub publickey_fromfile :
    Session → Option (String × String × String × Option String) → Io Value
publickey_fromfile self args = parsed args λ (username, publickey, privatekey, passphrase). do
  r ← invoke (userauth_publickey_fromfile self.session username publickey privatekey passphrase)
  unless_failed (not (is_zero r.rc)) self.session r.rc (key_cases [])
      (with_both "Unknown Error %i: %s") py_none

-- The hostname comes before the passphrase.
unfoldable pub hostbased_fromfile :
    Session → Option (String × String × String × String × Option String) → Io Value
hostbased_fromfile self args =
    parsed args λ (username, publickey, privatekey, hostname, passphrase). do
      r ← invoke (
          userauth_hostbased_fromfile self.session username publickey privatekey passphrase
            hostname)
      unless_failed (not (is_zero r.rc)) self.session r.rc
          (key_cases ((file, with_message "LIBSSH2_ERROR_FILE: %s") ∷ []))
          (with_both "Unknown Error %i: %s") py_none
