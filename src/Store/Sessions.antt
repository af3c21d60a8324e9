-- ===== src/Store/Sessions.antt =====
-- `Session_close` and `PYLIBSSH2_Session_dealloc` of src/session.c, and the methods `close`,
-- `channel_close`, `sftp_shutdown` and `forward_cancel`. A method's object argument is the number of
-- the object, or `none` where `PyArg_ParseTuple` fails.
use pylibssh.Prelude.{
  ℤ, pos, is_negative, false, String, List, [], Option, none, some, if◌then◌else◌,
}
use pylibssh.Host.{invoke, fail_with}
use pylibssh.Host.Types.{ObjId, null_ptr, is_null_ptr, ssh_error, interpreter_error, Value, py_none}
use pylibssh.Host.Calls.{session_disconnect, session_free}
use pylibssh.Store.Run.{
  Cmd, pure, ◌>>=◌, ◌>>◌, lift, session_slot, channel_slot, listener_slot, sftp_slot, load, modify,
  destroy, release,
}
use pylibssh.Store.Sets.{drain, discard, contains}
use pylibssh.Store.Objects.{
  close_channel, dealloc_channel, cancel_listener, dealloc_listener, shutdown_sftp, dealloc_sftp,
  free_set,
}

abbrev pub sftps : ObjId → Cmd (List ObjId)
sftps id = do self ← load session_slot id; pure self.sftps

abbrev pub set_sftps : ObjId → List ObjId → Cmd (Unit {0})
set_sftps id xs = modify session_slot id λ s. record s { sftps = xs }

abbrev pub channels : ObjId → Cmd (List ObjId)
channels id = do self ← load session_slot id; pure self.channels

abbrev pub set_channels : ObjId → List ObjId → Cmd (Unit {0})
set_channels id xs = modify session_slot id λ s. record s { channels = xs }

abbrev pub listeners : ObjId → Cmd (List ObjId)
listeners id = do self ← load session_slot id; pure self.listeners

abbrev pub set_listeners : ObjId → List ObjId → Cmd (Unit {0})
set_listeners id xs = modify session_slot id λ s. record s { listeners = xs }

-- The bodies of the three loops of `Session_close`.
unfoldable pub finish_sftp : ObjId → Cmd (Unit {0})
finish_sftp item = shutdown_sftp item >> release sftp_slot item (dealloc_sftp item)

unfoldable pub finish_channel : ObjId → Cmd (Unit {0})
finish_channel item = close_channel item >> release channel_slot item (dealloc_channel item)

unfoldable pub finish_listener : ObjId → Cmd (Unit {0})
finish_listener item = release listener_slot item (dealloc_listener item)

-- `Session_close`
unfoldable pub close_session : ObjId → Cmd ℤ
close_session id = do
  self ← load session_slot id
  if self.opened
      then (do
        drain (sftps id) (set_sftps id) finish_sftp
        drain (channels id) (set_channels id) finish_channel
        drain (listeners id) (set_listeners id) finish_listener
        r ← lift (invoke (session_disconnect self.session "end"))
        modify session_slot id λ s. record s { opened = false }
        pure r.rc)
      else pure (pos 0)

-- `PYLIBSSH2_Session_close`; the reason is parsed and not used.
unfoldable pub close : ObjId → Option (Option String) → Cmd Value
close id none = lift (fail_with interpreter_error)
close id (some reason) = do
  rc ← close_session id
  if is_negative rc then lift (fail_with (ssh_error "SSH close error." [])) else pure py_none

unfoldable pub dealloc_session : ObjId → Cmd (Unit {0})
dealloc_session id = do
  self ← load session_slot id
  if is_null_ptr self.session then pure tt else do
    if self.opened then (do close_session id; pure tt) else pure tt
    lift (invoke (session_free self.session))
    modify session_slot id λ s. record s { session = null_ptr; socket = none }
  left ← load session_slot id
  free_set (λ item. release sftp_slot item (dealloc_sftp item)) left.sftps
  free_set (λ item. release channel_slot item (dealloc_channel item)) left.channels
  free_set (λ item. release listener_slot item (dealloc_listener item)) left.listeners
  destroy session_slot id

-- `PySet_Discard`: an element that is there leaves the set, and the set's reference is given back.
unfoldable pub discard_from :
    List ObjId → (List ObjId → Cmd (Unit {0})) → ObjId → Cmd (Unit {0}) → Cmd (Unit {0})
discard_from xs replace item drop =
    if contains item xs then (replace (discard item xs) >> drop) else pure tt

-- `PYLIBSSH2_Session_channel_close`
unfoldable pub channel_close : ObjId → Option ObjId → Cmd Value
channel_close id none = lift (fail_with interpreter_error)
channel_close id (some channel) = do
  self ← load session_slot id
  discard_from self.channels (set_channels id) channel
      (release channel_slot channel (dealloc_channel channel))
  close_channel channel
  pure py_none

-- `PYLIBSSH2_Session_sftp_shutdown`
unfoldable pub sftp_shutdown : ObjId → Option ObjId → Cmd Value
sftp_shutdown id none = lift (fail_with interpreter_error)
sftp_shutdown id (some sftp) = do
  self ← load session_slot id
  discard_from self.sftps (set_sftps id) sftp (release sftp_slot sftp (dealloc_sftp sftp))
  shutdown_sftp sftp
  pure py_none

-- `PYLIBSSH2_Session_forward_cancel`
unfoldable pub forward_cancel : ObjId → Option ObjId → Cmd Value
forward_cancel id none = lift (fail_with interpreter_error)
forward_cancel id (some listener) = do
  self ← load session_slot id
  discard_from self.listeners (set_listeners id) listener
      (release listener_slot listener (dealloc_listener listener))
  cancel_listener listener
  pure py_none
