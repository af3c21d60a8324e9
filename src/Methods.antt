-- ===== src/Methods.antt =====
-- The methods of channel, SFTP and file objects together: what those of src/channel.c, src/sftp.c and
-- src/sftpfile.c have in common.
use pylibssh.Prelude.{String, ◌≡◌, some, []}
use pylibssh.Host.{Env, Host, Io}
use pylibssh.Host.Types.{Ptr, null_ptr, Value, null, ssh_error}
use pylibssh.Handles.{
  Channel, Sftp, Handle, channel_closed_text, sftp_closed_text, file_closed_text,
}
use pylibssh.Report.Uses.{Uses}
use pylibssh.Channel.Table as ChannelTable
use pylibssh.Channel.Table.{run_channel}
use pylibssh.Channel.Scope.{run_channel-Uses, run_channel-closed}
use pylibssh.Sftp.Table as SftpTable
use pylibssh.Sftp.Table.{run_sftp}
use pylibssh.Sftp.Scope.{run_sftp-Uses, run_sftp-closed}
use pylibssh.File.Table as FileTable
use pylibssh.File.Table.{run_file}
use pylibssh.File.Scope.{run_file-Uses, run_file-closed}

-- An object with a method.
pub data Target : Type 0 where
  on_channel : Channel → ChannelTable.Method → Target
  on_sftp : Sftp → SftpTable.Method → Target
  on_file : Handle → FileTable.Method → Target

abbrev pub run_on : Target → Io Value
run_on (on_channel self m) = run_channel m self
run_on (on_sftp self m) = run_sftp m self
run_on (on_file self m) = run_file m self

abbrev pub session_of : Target → Ptr
session_of (on_channel self m) = self.session
session_of (on_sftp self m) = self.session
session_of (on_file self m) = self.session

abbrev pub handle_of : Target → Ptr
handle_of (on_channel self m) = self.channel
handle_of (on_sftp self m) = self.sftp
handle_of (on_file self m) = self.handle

abbrev pub closed_text : Target → String
closed_text (on_channel self m) = channel_closed_text
closed_text (on_sftp self m) = sftp_closed_text
closed_text (on_file self m) = file_closed_text

-- Whatever libssh2 answers, a method of a channel or a file object, or of an SFTP object on paths and
-- attributes, calls libssh2 only to ask for the last error of the object's session, or on the object's
-- own handle, and then that is not `NULL`. Its other calls are those of the allocators. None of its
-- calls takes a channel, a listener, an SFTP session or a handle from libssh2 or gives one back.
pub run_on-Uses : (env : Env) (t : Target) → Uses (session_of t) (handle_of t) env (run_on t)
run_on-Uses env (on_channel self m) = run_channel-Uses env self m
run_on-Uses env (on_sftp self m) = run_sftp-Uses env self m
run_on-Uses env (on_file self m) = run_file-Uses env self m

-- If the object's handle is closed, such a method calls nothing, returns `NULL` and raises the error
-- that says so; its arguments are not even read.
pub run_on-closed :
    (env : Env) (t : Target) (h : Host)
    → handle_of t ≡ null_ptr
    → run_on t env h ≡ (null, record { log = h.log; error = some (ssh_error (closed_text t) []) })
run_on-closed env (on_channel self m) h closed = run_channel-closed env self m h closed
run_on-closed env (on_sftp self m) h closed = run_sftp-closed env self m h closed
run_on-closed env (on_file self m) h closed = run_file-closed env self m h closed
