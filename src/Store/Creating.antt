-- ===== src/Store/Creating.antt =====
-- `PYLIBSSH2_Session_New` of src/session.c and `PYLIBSSH2_Session` of src/pylibssh2.c, which makes a
-- session object.
use pylibssh.Prelude.{String, false, [], Option, none, some, if◌then◌else◌}
use pylibssh.Host.{invoke}
use pylibssh.Host.Types.{Ptr, ObjId, is_null_ptr, Value, null}
use pylibssh.Host.Calls.{Kind, session_init, banner_set}
use pylibssh.Store.Run.{Cmd, pure, ◌>>=◌, ◌>>◌, lift, session_slot}
use pylibssh.Store.Opening.{new_object, to_value}

-- The last step of `_New`: the banner that libssh2 will send.
unfoldable pub announce : String → Ptr → Option ObjId → Cmd (Option ObjId)
announce banner session none = pure none
announce banner session (some self) = lift (invoke (banner_set session banner)) >> pure (some self)

-- `banner` is `LIBSSH2_SSH_DEFAULT_BANNER"_Python"`.
unfoldable pub new_session : String → Ptr → Cmd (Option ObjId)
unfolding announce
new_session banner session = do
  self ← new_object session_slot Kind.session (is_null_ptr session) (record {
    session = session;
    socket = none;
    opened = false;
    sftps = [];
    channels = [];
    listeners = [];
  })
  announce banner session self

-- Where libssh2 gives no session the method returns `NULL` and sets no exception.
unfoldable pub create_session : String → Cmd Value
create_session banner = do
  r ← lift (invoke session_init)
  if is_null_ptr r.ptr
      then pure null
      else (new_session banner r.ptr >>= λ self. pure (to_value self))
