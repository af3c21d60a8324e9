-- ===== src/Channel/Status.antt =====
-- The queries of src/channel.c: `exit_status`, `eof`, `window_read`, `window_write`, `poll_read`.
use pylibssh.Prelude.{ℤ, pos, is_negative, is_zero, [], ◌∷◌, Option, given, if◌then◌else◌}
use pylibssh.Host.{Io, pure, ◌>>=◌, invoke, fail_with, parsed}
use pylibssh.Host.Types.{ssh_error, Value, int, ints}
use pylibssh.Host.Calls.{
  channel_get_exit_status, channel_eof, channel_window_read, channel_window_write,
  poll_channel_read,
}
use pylibssh.Report.{guarded}
use pylibssh.Handles.{Channel, channel_closed_text}

unfoldable pub exit_status : Channel → Io Value
exit_status self = guarded self.channel channel_closed_text do
  r ← invoke (channel_get_exit_status self.channel)
  if is_zero r.rc then fail_with (ssh_error "Unable to get exit status." []) else pure (int r.rc)

unfoldable pub eof : Channel → Io Value
eof self = guarded self.channel channel_closed_text do
  r ← invoke (channel_eof self.channel)
  if is_negative r.rc
      then fail_with (ssh_error "Unable to check channel eof." [])
      else pure (int r.rc)

unfoldable pub window_read : Channel → Io Value
window_read self = guarded self.channel channel_closed_text do
  r ← invoke (channel_window_read self.channel)
  pure (ints (r.rc ∷ r.out_first ∷ r.out_second ∷ []))

unfoldable pub window_write : Channel → Io Value
window_write self =
    guarded self.channel channel_closed_text
      do r ← invoke (channel_window_write self.channel); pure (ints (r.rc ∷ r.out_first ∷ []))

unfoldable pub poll_read : Channel → Option (Option ℤ) → Io Value
poll_read self args = guarded self.channel channel_closed_text (
    parsed args λ extended. do
      r ← invoke (poll_channel_read self.channel (given (pos 0) extended))
      pure (int r.rc))
