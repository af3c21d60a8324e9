-- ===== src/Channel/Requests.antt =====
-- The requests of src/channel.c: `pty`, `pty_resize`, `shell`, `execute`, `setenv`, `setblocking`,
-- `x11_req` and `receive_window_adjust`.
use pylibssh.Prelude.{
  to_int, ℤ, pos, is_negative, is_zero, not, String, [], ◌∷◌, Option, given, if◌then◌else◌,
}
use pylibssh.Host.{Io, pure, ◌>>=◌, ◌>>◌, invoke, fail_with, parsed}
use pylibssh.Host.Types.{
  Bytes, alloc, socket_send, channel_request_denied, ssh_error, arg_int, Value, py_none, int,
}
use pylibssh.Host.Calls.{
  channel_request_pty, channel_request_pty_size, channel_shell, channel_exec, channel_setenv,
  channel_set_blocking, channel_x11_req, channel_receive_window_adjust,
}
use pylibssh.Report.{with_message, with_both, unless_failed, guarded}
use pylibssh.Handles.{Channel, channel_closed_text}

pub record PtyArgs : Type 0 where
  pub term : Bytes
  pub modes : Option Bytes
  pub width : Option ℤ
  pub height : Option ℤ
  pub width_px : Option ℤ
  pub height_px : Option ℤ

unfoldable pub pty : Channel → Option PtyArgs → Io Value
pty self args = guarded self.channel channel_closed_text (
    parsed args λ a. do
      r ← invoke (
          channel_request_pty self.channel a.term a.modes (given (pos 80) a.width)
            (given (pos 24) a.height) (given (pos 0) a.width_px) (given (pos 0) a.height_px))
      unless_failed (not (is_zero r.rc)) self.session r.rc
          ((alloc, with_message "An internal memory allocation call failed: %s")
            ∷ (socket_send, with_message "Unable to send data on socket: %s")
            ∷ (channel_request_denied, with_message "LIBSSH2_ERROR_CHANNEL_REQUEST_DENIED: %s")
            ∷ [])
          (with_both "Unknown Error %i: %s") py_none)

unfoldable pub pty_resize : Channel → Option (ℤ × ℤ × Option ℤ × Option ℤ) → Io Value
pty_resize self args = guarded self.channel channel_closed_text (
    parsed args λ a. do
      r ←
          invoke
            (channel_request_pty_size self.channel a.0 a.1 (given (pos 0) a.2) (given (pos 0) a.3))
      unless_failed (not (is_zero r.rc)) self.session r.rc [] (with_both "Unknown Error %i: %s")
          py_none)

unfoldable pub shell : Channel → Io Value
shell self = guarded self.channel channel_closed_text do
  r ← invoke (channel_shell self.channel)
  unless_failed (not (is_zero r.rc)) self.session r.rc
      ((alloc, with_message "An internal memory allocation call failed: %s")
        ∷ (socket_send, with_message "Unable to send data on socket: %s")
        ∷ (channel_request_denied, with_message "LIBSSH2_ERROR_CHANNEL_REQUEST_DENIED: %s")
        ∷ [])
      (with_both "Unknown Error %i: %s") py_none

unfoldable pub execute : Channel → Option String → Io Value
execute self args = guarded self.channel channel_closed_text (
    parsed args λ command. do
      r ← invoke (channel_exec self.channel command)
      unless_failed (not (is_zero r.rc)) self.session r.rc
          ((alloc, with_message "An internal memory allocation call failed: %s")
            ∷ (socket_send, with_message "Unable to send data on socket: %s")
            ∷ (channel_request_denied, with_message "LIBSSH2_ERROR_CHANNEL_REQUEST_DENIED: %s")
            ∷ [])
          (with_both "Unknown Error %i: %s") py_none)

unfoldable pub setenv : Channel → Option (String × String) → Io Value
setenv self args = guarded self.channel channel_closed_text (
    parsed args λ a. do
      r ← invoke (channel_setenv self.channel a.0 a.1)
      unless_failed (is_negative r.rc) self.session r.rc
          ((alloc, with_message "An internal memory allocation call failed: %s")
            ∷ (socket_send, with_message "Unable to send data on socket: %s")
            ∷ (channel_request_denied, with_message "LIBSSH2_ERROR_CHANNEL_REQUEST_DENIED: %s")
            ∷ [])
          (with_both "Unknown Error %i: %s") py_none)

unfoldable pub setblocking : Channel → Option ℤ → Io Value
setblocking self args =
    guarded self.channel channel_closed_text
      (parsed args λ block. do invoke (channel_set_blocking self.channel block); pure py_none)

unfoldable pub x11_req :
    Channel → Option (Option ℤ × Option String × Option String × Option ℤ) → Io Value
x11_req self args = guarded self.channel channel_closed_text (
    parsed args λ a. do
      r ← invoke (channel_x11_req self.channel (given (pos 0) a.0) a.1 a.2 (given (pos 0) a.3))
      unless_failed (is_negative r.rc) self.session r.rc
          ((alloc, with_message "An internal memory allocation call failed: %s")
            ∷ (socket_send, with_message "Unable to send data on socket: %s")
            ∷ (channel_request_denied, with_message "LIBSSH2_ERROR_CHANNEL_REQUEST_DENIED: %s")
            ∷ [])
          (with_both "Unknown Error %i: %s") py_none)

-- `Py_BuildValue("i", …)` takes the `unsigned int` for an `int`.
unfoldable pub receive_window_adjust : Channel → Option (ℤ × Option ℤ) → Io Value
receive_window_adjust self args = guarded self.channel channel_closed_text (
    parsed args λ a. do
      r ← invoke (channel_receive_window_adjust self.channel a.0 (given (pos 0) a.1))
      if is_negative r.rc
          then fail_with (ssh_error "Unknown Error %i" (arg_int r.rc ∷ []))
          else pure (int (to_int r.out_first)))
