-- ===== src/Session/Callback.antt =====
-- `callback_set` of src/session.c.
use pylibssh.Prelude.{ℤ, int_eq, Bool, [], ◌∷◌, List, Option, none, some, if◌then◌else◌}
use pylibssh.Host.{Io, pure, ◌>>=◌, ◌>>◌, invoke, set_error, fail_with}
use pylibssh.Host.Types.{ObjId, ssh_error, type_error, interpreter_error, Value, py_none}
use pylibssh.Host.Calls.{session_callback_set}
use pylibssh.Handles.{Session}

-- The static variable `py_callback_func`, and the references to Python objects that the method has
-- taken, newest first. It gives none back.
pub record Callback : Type 0 where
  pub func : Option ObjId
  pub taken : List ObjId

-- `Py_XINCREF`
abbrev pub take_ref : Option ObjId → List ObjId → List ObjId
take_ref none taken = taken
take_ref (some x) taken = x ∷ taken

unfoldable pub install : ObjId → Callback → Callback
install cb s = record { func = some cb; taken = take_ref s.func (cb ∷ s.taken) }

-- The arguments are the type of the callback, the object, and whether it is callable; `x11` is the
-- number of `LIBSSH2_CALLBACK_X11`. Where the arguments are refused the method returns `None` with
-- the exception set.
unfoldable pub callback_set :
    ℤ → Session → Option (ℤ × ObjId × Bool) → Callback → Io (Value × Callback)
callback_set x11 self none s = set_error interpreter_error >> pure (py_none, s)
callback_set x11 self (some (cbtype, cb, is_callable)) s =
    if is_callable
    then (if int_eq cbtype x11
        then (do
          v ← fail_with (ssh_error "Only callback supported is LIBSSH2_CALLBACK_X11" [])
          pure (v, s))
        else (do invoke (session_callback_set self.session cbtype); pure (py_none, install cb s)))
    else (do v ← fail_with (type_error "parameter must be callable"); pure (v, s))
