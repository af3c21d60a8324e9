-- ===== src/Channel/Scope.antt =====
-- Which calls the methods of src/channel.c make.
use pylibssh.Prelude.{◌≡◌, refl, [], some}
use pylibssh.Host.{Env, Host, set_error, pure, fail_with, ◌>>◌}
use pylibssh.Host.Types.{null_ptr, ssh_error, null}
use pylibssh.Host.Calls.{target}
use pylibssh.Report.{guarded}
use pylibssh.Report.Uses.{Uses, uses_rules}
use pylibssh.Handles.{Channel, channel_closed_text}
use pylibssh.Channel.Table.{Method, run_channel}
use pylibssh.Channel.Requests.{
  pty, pty_resize, shell, execute, setenv, setblocking, x11_req, receive_window_adjust,
}
use pylibssh.Channel.Streams.{
  read, read_buffer, read_ex, write, flush, send_eof, wait_eof, wait_closed,
}
use pylibssh.Channel.Status.{exit_status, eof, window_read, window_write, poll_read}

-- Whatever libssh2 answers, a method of a channel object calls libssh2 only to ask for the last
-- error of the object's session, or on the object's channel, and then that is not `NULL`. Its other
-- calls are those of the allocators. None of its calls takes a channel, a listener, an SFTP session or
-- a handle from libssh2 or gives one back.
pub run_channel-Uses :
    (env : Env) (self : Channel) (m : Method)
    → Uses self.session self.channel env (run_channel m self)
unfolding run_channel target pty pty_resize shell execute setenv setblocking x11_req
    receive_window_adjust read read_buffer read_ex write flush send_eof wait_eof wait_closed
    exit_status eof window_read window_write poll_read
run_channel-Uses env self Method.shell = search uses_rules depth 18
run_channel-Uses env self m = search uses_rules depth 18

-- A method of a closed channel object calls nothing, and raises the error that says so; its
-- arguments are not even read.
pub run_channel-closed :
    (env : Env) (self : Channel) (m : Method) (h : Host)
    → self.channel ≡ null_ptr
    → run_channel m self env h
      ≡ (null, record { log = h.log; error = some (ssh_error channel_closed_text []) })
unfolding run_channel pty pty_resize shell execute setenv setblocking x11_req receive_window_adjust
    read read_ex write flush send_eof wait_eof wait_closed exit_status eof window_read window_write
    poll_read guarded fail_with set_error pure ◌>>◌
run_channel-closed env self Method.shell h closed = rw closed refl
run_channel-closed env self m h closed = rw closed refl
