-- ===== src/Store/Opening.antt =====
-- Where objects come from: the functions `_New`, and the methods that call them, `open_session`,
-- `scp_recv`, `scp_send`, `sftp_init`, `forward_listen` and `direct_tcpip` of src/session.c, and
-- `accept` of src/listener.c. Those of src/sftp.c are in `SftpOpening`.
use pylibssh.Prelude.{
  ℕ, suc, ℤ, pos, String, [], ◌∷◌, Option, none, some, Bool, ◌||◌, given, if◌then◌else◌, true, ◌≡◌,
}
use pylibssh.Host.{invoke, fail_with}
use pylibssh.Host.Types.{
  Ptr, ObjId, is_null_ptr, alloc, socket_send, socket_timeout, channel_failure, scp_protocol,
  sftp_protocol, proto, request_denied, eagain, ssh_error, interpreter_error, Value, null, object,
  object_and_stat, raw_pointer,
}
use pylibssh.Host.Calls.{
  Kind, channel_open_session, scp_recv, scp_send, sftp_init, channel_direct_tcpip,
  channel_forward_listen, channel_forward_accept, py_object_new,
}
use pylibssh.Report.{with_message, with_both, report_null}
use pylibssh.Stat.{stat_to_statdict}
use pylibssh.Store.Run.{
  Cmd, ok, pure, undefined, ◌>>=◌, ◌>>◌, lift, Slot, write, session_slot, channel_slot,
  listener_slot, sftp_slot, handle_slot, load, modify, retain,
}

-- An object in memory, with one reference.
unfoldable pub insert_object : {A : Type 0} → Slot A → A → Cmd (Option ObjId)
insert_object slot body env w =
    let table' = write (slot.table w) w.next (some (record { refs = 1; body = body })) in
    ok (some w.next) (record (slot.update w table') { next = suc w.next })

-- The functions `_New`: none of the pointers may be `NULL`, and `PyObject_New` may fail. The caller
-- gets the reference.
unfoldable pub new_object : {A : Type 0} → Slot A → Kind → Bool → A → Cmd (Option ObjId)
unfolding insert_object
new_object slot kind missing body = if missing then pure none else do
  r ← lift (invoke (py_object_new kind))
  if is_null_ptr r.ptr
      then lift (fail_with interpreter_error) >> pure none
      else insert_object slot body

abbrev pub new_channel : Ptr → Ptr → Cmd (Option ObjId)
new_channel session channel =
    new_object channel_slot Kind.channel (is_null_ptr session || is_null_ptr channel)
      (record { session = session; channel = channel })

abbrev pub new_listener : Ptr → Ptr → Cmd (Option ObjId)
new_listener session listener =
    new_object listener_slot Kind.listener (is_null_ptr session || is_null_ptr listener)
      (record { session = session; listener = listener })

abbrev pub new_sftp : Ptr → Ptr → Cmd (Option ObjId)
new_sftp session sftp =
    new_object sftp_slot Kind.sftp (is_null_ptr session || is_null_ptr sftp)
      (record { session = session; sftp = sftp; directories = []; files = [] })

abbrev pub new_handle : Kind → Ptr → Ptr → Ptr → Cmd (Option ObjId)
new_handle kind session sftp handle =
    new_object handle_slot kind (is_null_ptr session || (is_null_ptr sftp || is_null_ptr handle))
      (record { session = session; sftp = sftp; handle = handle })

-- `PySet_Add` takes a reference of its own.
unfoldable pub add_channel : ObjId → ObjId → Cmd (Unit {0})
add_channel id item = do
  modify session_slot id λ s. record s { channels = item ∷ s.channels }
  retain channel_slot item

-- `if(chan) { PySet_Add(self->channels, chan); } return chan;`
unfoldable pub track_channel : ObjId → Option ObjId → Cmd Value
track_channel id none = pure null
track_channel id (some item) = add_channel id item >> pure (object item)

unfoldable pub open_session : ObjId → Cmd Value
open_session id = do
  self ← load session_slot id
  r ← lift (invoke (channel_open_session self.session))
  if is_null_ptr r.ptr
      then lift (
          report_null self.session
            ((alloc, with_message "An internal memory allocation call failed: %s")
              ∷ (socket_send, with_message "Unable to send data on socket.: %s")
              ∷ (channel_failure, with_message "LIBSSH2_ERROR_CHANNEL_FAILURE: %s")
              ∷ [])
            (with_both "Failed to open a channel session %i: %s"))
      else (new_channel self.session r.ptr >>= track_channel id)

-- `PYLIBSSH2_Session_scp_recv`. The tuple takes a reference of its own to the channel object, and
-- the reference of `PYLIBSSH2_Channel_New` is kept too.
unfoldable pub recv_result : ObjId → Option ObjId → Value → Cmd Value
recv_result id none result = pure null
recv_result id (some item) result = do add_channel id item; retain channel_slot item; pure result

unfoldable pub recv : ObjId → Option String → Cmd Value
recv id none = lift (fail_with interpreter_error)
recv id (some path) = do
  self ← load session_slot id
  r ← lift (invoke (scp_recv self.session path))
  if is_null_ptr r.ptr then lift (fail_with (ssh_error "SCP receive error." [])) else do
    chan ← new_channel self.session r.ptr
    recv_result id chan (elim chan [
      | none ↦ null
      | some item ↦ object_and_stat (object item) (stat_to_statdict r.file_stat)
    ])

-- `PYLIBSSH2_Session_scp_send`: path, mode, size, modification time, access time.
unfoldable pub send : ObjId → Option (String × ℤ × ℕ × ℤ × ℤ) → Cmd Value
send id none = lift (fail_with interpreter_error)
send id (some a) = do
  self ← load session_slot id
  r ← lift (invoke (scp_send self.session a.0 a.1 a.2 a.3 a.4))
  if is_null_ptr r.ptr
      then lift (
          report_null self.session
            ((alloc, with_message "An internal memory allocation call failed: %s")
              ∷ (socket_send, with_message "Unable to send data on socket: %s")
              ∷ (scp_protocol, with_message "LIBSSH2_ERROR_SCP_PROTOCOL: %s")
              ∷ (eagain, with_message "Marked for non-blocking I/O but the call would block: %s")
              ∷ [])
            (with_both "Unknown Error %i: %s"))
      else (new_channel self.session r.ptr >>= track_channel id)

-- `PYLIBSSH2_Session_direct_tcpip`: the pointer that libssh2 returns is itself returned, cast to an
-- object.
unfoldable pub direct_tcpip : ObjId → Option (String × ℤ × Option String × Option ℤ) → Cmd Value
direct_tcpip id none = lift (fail_with interpreter_error)
direct_tcpip id (some a) = do
  self ← load session_slot id
  r ← lift (
      invoke
        (channel_direct_tcpip self.session a.0 a.1 (given "127.0.0.1" a.2) (given (pos 22) a.3)))
  if is_null_ptr r.ptr
      then lift (
          report_null self.session
            ((alloc, with_message "An internal memory allocation call failed: %s") ∷ [])
            (with_both "Unknown Error %i: %s"))
      else pure (raw_pointer r.ptr)

unfoldable pub track_sftp : ObjId → Option ObjId → Cmd Value
track_sftp id none = pure null
track_sftp id (some item) = do
  modify session_slot id λ s. record s { sftps = item ∷ s.sftps }
  retain sftp_slot item
  pure (object item)

-- `PYLIBSSH2_Session_sftp_init`
unfoldable pub init_sftp : ObjId → Cmd Value
init_sftp id = do
  self ← load session_slot id
  r ← lift (invoke (sftp_init self.session))
  if is_null_ptr r.ptr
      then lift (
          report_null self.session
            ((alloc, with_message "An internal memory allocation call failed: %s")
              ∷ (socket_send, with_message " Unable to send data on socket: %s")
              ∷ (socket_timeout, with_message "LIBSSH2_ERROR_SOCKET_TIMEOUT: %s")
              ∷ (
                sftp_protocol,
                with_message
                    "An invalid SFTP protocol response was received on the socket, or an SFTP operation caused an errorcode to be returned by the server: %s",
              )
              ∷ (eagain, with_message "LIBSSH2_ERROR_EAGAIN: %s")
              ∷ (channel_failure, with_message "LIBSSH2_ERROR_CHANNEL_FAILURE: %s")
              ∷ [])
            (with_both "Unknown Error %i: %s"))
      else (new_sftp self.session r.ptr >>= track_sftp id)

unfoldable pub track_listener : ObjId → Option ObjId → Cmd Value
track_listener id none = pure null
track_listener id (some item) = do
  modify session_slot id λ s. record s { listeners = item ∷ s.listeners }
  retain listener_slot item
  pure (object item)

-- `PYLIBSSH2_Session_forward_listen`: host, port, the pointer that `bound_port` is when the number that
-- the caller gives has been written over its first bytes, as an `int`, the others being whatever was
-- there, and the size of the queue. Where that pointer is not `NULL`, libssh2 writes the port through it
-- when it returns a listener.
unfoldable pub forward_listen : ObjId → Option (String × ℤ × Ptr × ℤ) → Cmd Value
forward_listen id none = lift (fail_with interpreter_error)
forward_listen id (some a) = do
  self ← load session_slot id
  r ← lift (invoke (channel_forward_listen self.session a.0 a.1 a.2 a.3))
  if is_null_ptr r.ptr
      then lift (
          report_null self.session
            ((alloc, with_message "An internal memory allocation call failed: %s")
              ∷ (socket_send, with_message "Unable to send data on socket: %s")
              ∷ (
                proto,
                with_message "An invalid SSH protocol response was received on the socket: %s",
              )
              ∷ (request_denied, with_message "The remote server refused the request: %s")
              ∷ (eagain, with_message "Marked for non-blocking I/O but the call would block: %s")
              ∷ [])
            (with_both "Unknown Error %i: %s"))
      else if is_null_ptr a.2
      then (new_listener self.session r.ptr >>= track_listener id)
      else undefined

-- The arguments have a pointer that libssh2 does not write through.
abbrev pub BoundToNull : Option (String × ℤ × Ptr × ℤ) → Type 0
BoundToNull none = Unit {0}
BoundToNull (some a) = is_null_ptr a.2 ≡ true

abbrev pub to_value : Option ObjId → Value
to_value none = null
to_value (some item) = object item

-- `PYLIBSSH2_Listener_accept`: the new channel object is in no set of the session.
unfoldable pub accept : ObjId → Cmd Value
accept id = do
  self ← load listener_slot id
  r ← lift (invoke (channel_forward_accept self.listener))
  if is_null_ptr r.ptr
      then lift (
          report_null self.session
            ((alloc, with_message "An internal memory allocation call failed: %s")
              ∷ (socket_send, with_message "Unable to send data on socket: %s")
              ∷ (
                proto,
                with_message "An invalid SSH protocol response was received on the socket: %s",
              )
              ∷ (request_denied, with_message "The remote server refused the request: %s")
              ∷ (eagain, with_message "Marked for non-blocking I/O but the call would block: %s")
              ∷ [])
            (with_both "Unknown Error %i: %s"))
      else (do chan ← new_channel self.session r.ptr; pure (to_value chan))
