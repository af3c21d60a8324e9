-- ===== src/Host/Calls.antt =====
-- The functions of libssh2 that the source calls, with the arguments it passes, and the calls of
-- libc and CPython that can fail for want of memory. None of them is in src/.
use pylibssh.Prelude.{ℕ, ℤ, String, Bool, true, false, Option}
use pylibssh.Host.Types.{Ptr, Bytes, Attributes, RequestAttributes, FileStat, Algorithm}

-- The object types that `PyObject_New` is called with.
pub data Kind : Type 0 where
  session channel listener sftp file dir : Kind

pub data Call : Type 0 where
  -- session
  session_startup : Ptr → ℤ → Call
  session_last_error : Ptr → Call
  session_disconnect : Ptr → String → Call
  session_free : Ptr → Call
  session_methods : Ptr → Algorithm → Call
  session_method_pref : Ptr → ℤ → String → Call
  session_set_blocking : Ptr → ℤ → Call
  session_callback_set : Ptr → ℤ → Call
  banner_set : Ptr → String → Call
  trace : Ptr → ℤ → Call
  hostkey_hash : Ptr → ℤ → Call
  userauth_authenticated : Ptr → Call
  userauth_list : Ptr → String → Call
  userauth_password : Ptr → String → String → Call
  userauth_publickey_fromfile : Ptr → String → String → String → Option String → Call
  userauth_hostbased_fromfile : Ptr → String → String → String → Option String → String → Call
  userauth_keyboard_interactive : Ptr → String → String → ℤ → Call
  session_init : Call
  agent_init : Ptr → Call
  agent_connect agent_list_identities agent_disconnect agent_free : Ptr → Call
  agent_get_identity : Ptr → Ptr → Call
  agent_userauth : Ptr → String → Ptr → Call
  channel_open_session : Ptr → Call
  channel_direct_tcpip : Ptr → String → ℤ → String → ℤ → Call
  channel_forward_listen : Ptr → String → ℤ → Ptr → ℤ → Call
  scp_recv : Ptr → String → Call
  scp_send : Ptr → String → ℤ → ℕ → ℤ → ℤ → Call
  sftp_init : Ptr → Call
  -- listener
  channel_forward_accept channel_forward_cancel : Ptr → Call
  -- channel
  channel_request_pty : Ptr → Bytes → Option Bytes → ℤ → ℤ → ℤ → ℤ → Call
  channel_request_pty_size : Ptr → ℤ → ℤ → ℤ → ℤ → Call
  channel_shell : Ptr → Call
  channel_exec : Ptr → String → Call
  channel_setenv : Ptr → String → String → Call
  channel_set_blocking : Ptr → ℤ → Call
  channel_read : Ptr → ℤ → ℤ → Call
  channel_write : Ptr → Bytes → Call
  channel_flush channel_get_exit_status channel_eof channel_send_eof : Ptr → Call
  channel_wait_eof channel_wait_closed : Ptr → Call
  channel_window_read channel_window_write : Ptr → Call
  channel_x11_req : Ptr → ℤ → Option String → Option String → ℤ → Call
  poll_channel_read : Ptr → ℤ → Call
  channel_receive_window_adjust : Ptr → ℤ → ℤ → Call
  channel_close channel_free : Ptr → Call
  -- sftp
  sftp_last_error : Ptr → Call
  sftp_opendir : Ptr → String → Call
  sftp_open : Ptr → String → ℕ → ℤ → Call
  sftp_unlink sftp_rmdir : Ptr → String → Call
  sftp_rename sftp_symlink : Ptr → String → String → Call
  sftp_mkdir : Ptr → String → ℤ → Call
  sftp_realpath sftp_readlink : Ptr → String → ℤ → Call
  sftp_stat : Ptr → Bytes → ℤ → Call
  sftp_setstat : Ptr → String → RequestAttributes → Call
  sftp_shutdown : Ptr → Call
  -- handle
  sftp_readdir : Ptr → ℤ → Call
  sftp_read : Ptr → ℤ → Call
  sftp_write : Ptr → Bytes → Call
  sftp_tell : Ptr → Call
  sftp_seek : Ptr → ℕ → Call
  sftp_close_handle : Ptr → Call
  -- libc and CPython
  malloc : ℤ → Call
  py_string_new : ℤ → Call
  py_string_resize : ℤ → Call
  py_object_new : Kind → Call

-- What a call gives back: its result, a number or a pointer, and what it writes through the
-- pointers that it is passed. A call uses the fields that its C type has.
pub record Reply : Type 0 where
  pub rc : ℤ
  pub ptr : Ptr
  pub text : String
  pub buffer : Bytes
  pub attrs : Attributes
  pub file_stat : FileStat
  pub out_first : ℤ
  pub out_second : ℤ

pub record Event : Type 0 where
  pub call : Call
  pub reply : Reply

-- The handle that a call of libssh2 works on; the calls of libc and CPython work on none.
pub data Target : Type 0 where
  host : Target
  on : Ptr → Target

unfoldable pub target : Call → Target
target (session_startup p _) = on p
target (session_last_error p) = on p
target (session_disconnect p _) = on p
target (session_free p) = on p
target (session_methods p _) = on p
target (session_method_pref p _ _) = on p
target (session_set_blocking p _) = on p
target (session_callback_set p _) = on p
target (banner_set p _) = on p
target (trace p _) = on p
target (hostkey_hash p _) = on p
target (userauth_authenticated p) = on p
target (userauth_list p _) = on p
target (userauth_password p _ _) = on p
target (userauth_publickey_fromfile p _ _ _ _) = on p
target (userauth_hostbased_fromfile p _ _ _ _ _) = on p
target (userauth_keyboard_interactive p _ _ _) = on p
target session_init = host
target (agent_init p) = on p
target (agent_connect p) = on p
target (agent_list_identities p) = on p
target (agent_disconnect p) = on p
target (agent_free p) = on p
target (agent_get_identity p _) = on p
target (agent_userauth p _ _) = on p
target (channel_open_session p) = on p
target (channel_direct_tcpip p _ _ _ _) = on p
target (channel_forward_listen p _ _ _ _) = on p
target (scp_recv p _) = on p
target (scp_send p _ _ _ _ _) = on p
target (sftp_init p) = on p
target (channel_forward_accept p) = on p
target (channel_forward_cancel p) = on p
target (channel_request_pty p _ _ _ _ _ _) = on p
target (channel_request_pty_size p _ _ _ _) = on p
target (channel_shell p) = on p
target (channel_exec p _) = on p
target (channel_setenv p _ _) = on p
target (channel_set_blocking p _) = on p
target (channel_read p _ _) = on p
target (channel_write p _) = on p
target (channel_flush p) = on p
target (channel_get_exit_status p) = on p
target (channel_eof p) = on p
target (channel_send_eof p) = on p
target (channel_wait_eof p) = on p
target (channel_wait_closed p) = on p
target (channel_window_read p) = on p
target (channel_window_write p) = on p
target (channel_x11_req p _ _ _ _) = on p
target (poll_channel_read p _) = on p
target (channel_receive_window_adjust p _ _) = on p
target (channel_close p) = on p
target (channel_free p) = on p
target (sftp_last_error p) = on p
target (sftp_opendir p _) = on p
target (sftp_open p _ _ _) = on p
target (sftp_unlink p _) = on p
target (sftp_rmdir p _) = on p
target (sftp_rename p _ _) = on p
target (sftp_symlink p _ _) = on p
target (sftp_mkdir p _ _) = on p
target (sftp_realpath p _ _) = on p
target (sftp_readlink p _ _) = on p
target (sftp_stat p _ _) = on p
target (sftp_setstat p _ _) = on p
target (sftp_shutdown p) = on p
target (sftp_readdir p _) = on p
target (sftp_read p _) = on p
target (sftp_write p _) = on p
target (sftp_tell p) = on p
target (sftp_seek p _) = on p
target (sftp_close_handle p) = on p
target (malloc _) = host
target (py_string_new _) = host
target (py_string_resize _) = host
target (py_object_new _) = host

-- The calls that open a handle for the extension, or that it gives one back by.
abbrev pub hands_over : Call → Bool
hands_over session_init = true
hands_over (session_free p) = true
hands_over (channel_open_session p) = true
hands_over (channel_direct_tcpip p to_host to_port from_host from_port) = true
hands_over (channel_forward_listen p on_host on_port bound queue) = true
hands_over (channel_forward_accept p) = true
hands_over (channel_forward_cancel p) = true
hands_over (channel_free p) = true
hands_over (scp_recv p path) = true
hands_over (scp_send p path mode size mtime atime) = true
hands_over (sftp_init p) = true
hands_over (sftp_shutdown p) = true
hands_over (sftp_opendir p path) = true
hands_over (sftp_open p path flags mode) = true
hands_over (sftp_close_handle p) = true
hands_over c = false
