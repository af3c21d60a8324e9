-- ===== src/Channel/Streams.antt =====
-- The data methods of src/channel.c: `read`, `read_ex`, `write`, `flush`, `send_eof`, `wait_eof` and
-- `wait_closed`.
use pylibssh.Prelude.{
  ℤ, pos, negsuc, is_negative, is_zero, int_eq, Bool, ◌||◌, [], ◌∷◌, Option, take, given,
  if◌then◌else◌,
}
use pylibssh.Host.{Io, pure, ◌>>=◌, invoke, fail_with, parsed}
use pylibssh.Host.Types.{
  Bytes, is_null_ptr, alloc, eagain, socket_send, channel_closed, channel_eof_sent,
  interpreter_error, Value, null, py_none, int, str, bytes, sized_bytes,
}
use pylibssh.Host.Calls.{
  channel_read, channel_eof, channel_write, channel_flush, channel_send_eof, channel_wait_eof,
  channel_wait_closed, malloc, py_string_new, py_string_resize,
}
use pylibssh.Report.{plain, with_message, with_both, report_code, unless_failed, guarded}
use pylibssh.Handles.{Channel, channel_closed_text}

-- The first `rc` bytes of a buffer.
abbrev pub prefix : ℤ → Bytes → Bytes
prefix (pos n) buffer = take n buffer
prefix (negsuc n) buffer = []

abbrev pub read_failed : Channel → ℤ → Io Value
read_failed self rc =
    report_code self.session rc
      ((socket_send, with_message "Unable to send data on socket: %s")
        ∷ (channel_closed, with_message "The channel has been closed: %s")
        ∷ [])
      (with_both "Unknown Error %i: %s")

-- The part of `read` that runs while the remote end has not sent EOF.
unfoldable pub read_buffer : Channel → ℤ → Io Value
read_buffer self buffer_size = do
  cbuf ← invoke (malloc buffer_size)
  if is_null_ptr cbuf.ptr then pure null else do
    r ← invoke (channel_read self.channel (pos 0) buffer_size)
    if is_negative r.rc then read_failed self r.rc else pure (bytes (prefix r.rc r.buffer))

unfoldable pub read : Channel → Option (Option ℤ) → Io Value
read self args = guarded self.channel channel_closed_text (
    parsed args λ size. do
      eof ← invoke (channel_eof self.channel)
      if int_eq eof.rc (pos 1) then pure (str "") else read_buffer self (given (pos 1024) size))

-- `rc != buffer_size && _PyString_Resize(&buffer, rc) < 0`
abbrev pub shrink : ℤ → ℤ → Io Bool
shrink rc buffer_size =
    if int_eq rc buffer_size
    then pure Bool.false
    else do r ← invoke (py_string_resize rc); pure (is_negative r.rc)

unfoldable pub read_ex : Channel → Option (Option ℤ × Option ℤ) → Io Value
read_ex self args = guarded self.channel channel_closed_text (
    parsed args λ a. do
      let size = given (pos 1024) a.0
      buffer ← invoke (py_string_new size)
      if is_null_ptr buffer.ptr then fail_with interpreter_error else do
        r ← invoke (channel_read self.channel (given (pos 0) a.1) size)
        if is_negative r.rc || is_zero r.rc then read_failed self r.rc else do
          failed ← shrink r.rc size
          if failed
              then fail_with interpreter_error
              else pure (sized_bytes r.rc (prefix r.rc r.buffer)))

unfoldable pub write : Channel → Option Bytes → Io Value
write self args = guarded self.channel channel_closed_text (
    parsed args λ message. do
      r ← invoke (channel_write self.channel message)
      unless_failed (is_negative r.rc) self.session r.rc
          ((alloc, with_message "An internal memory allocation call failed: %s")
            ∷ (socket_send, with_message "Unable to send data on socket: %s")
            ∷ (channel_closed, with_message "The channel has been closed: %s")
            ∷ (channel_eof_sent, with_message "The channel has been requested to be closed: %s")
            ∷ [])
          (with_both "Unknown Error %i: %s") (int r.rc))

unfoldable pub flush : Channel → Io Value
flush self = guarded self.channel channel_closed_text do
  r ← invoke (channel_flush self.channel)
  unless_failed (is_negative r.rc) self.session r.rc
      ((eagain, plain "Marked for non-blocking I/O but the call would block.") ∷ [])
      (with_both "Unknown Error %i: %s") py_none

unfoldable pub send_eof : Channel → Io Value
send_eof self = guarded self.channel channel_closed_text do
  r ← invoke (channel_send_eof self.channel)
  unless_failed (is_negative r.rc) self.session r.rc
      ((socket_send, with_message "Unable to send data on socket.: %s") ∷ [])
      (with_both "Unknown Error %i: %s") py_none

unfoldable pub wait_eof : Channel → Io Value
wait_eof self = guarded self.channel channel_closed_text do
  r ← invoke (channel_wait_eof self.channel)
  unless_failed (is_negative r.rc) self.session r.rc ((eagain, with_message ": %s") ∷ [])
      (with_both "Unknown Error %i: %s") py_none

unfoldable pub wait_closed : Channel → Io Value
wait_closed self = guarded self.channel channel_closed_text do
  r ← invoke (channel_wait_closed self.channel)
  unless_failed (is_negative r.rc) self.session r.rc ((eagain, with_message ": %s") ∷ [])
      (with_both "Unknown Error %i: %s") py_none
