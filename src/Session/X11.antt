-- ===== src/Session/X11.antt =====
-- `stub_x11_callback_func` of src/session.c, which libssh2 calls when the server opens an X11 channel:
-- the references that it takes and gives back, and the interpreter's lock.
use pylibssh.Prelude.{
  ℕ, suc, ◌-◌, ◌^◌, ℤ, pos, is_negative, to_int, low_bits, ltb, not, Bool, true, false, Option,
  none, some, if◌then◌else◌,
}
use pylibssh.Host.Types.{Exception, type_error, interpreter_error}

-- How many references there are to the objects of one call: those for the session and the channel,
-- `None`, and the tuple of the arguments; and whether the thread has the interpreter's lock.
pub record Callee : Type 0 where
  pub pysession : ℕ
  pub pychannel : ℕ
  pub pyabstract : ℕ
  pub arglist : ℕ
  pub locked : Bool
  pub error : Option Exception

-- `PyGILState_Ensure`, two calls of `PyObject_New`, and a reference more to each object.
unfoldable pub make_arguments : Callee → Callee
make_arguments s = record s {
  locked = true;
  pysession = 2;
  pychannel = 2;
  pyabstract = suc s.pyabstract;
}

-- `Py_BuildValue("(OOsiO)", …)`, whose tuple has references of its own, and `Py_XINCREF(arglist)`.
unfoldable pub build_arglist : Callee → Callee
build_arglist s = record s {
  pysession = suc s.pysession;
  pychannel = suc s.pychannel;
  pyabstract = suc s.pyabstract;
  arglist = 2;
}

-- `PyEval_CallObject`: a Python function that raises leaves its exception set.
abbrev pub after_call : Option (Option ℤ) → Callee → Callee
after_call none s = record s { error = some interpreter_error }
after_call (some result) s = s

-- `rc`, an `int`, where the Python function raised an exception, returned no `int` object, or returned
-- one, which `PyInt_AsLong` makes a `long` of.
abbrev pub rc_of : Option (Option ℤ) → ℤ
rc_of none = pos 0
rc_of (some none) = pos 0
rc_of (some (some n)) = to_int n

-- `PyGILState_Release` and the four calls of `Py_XDECREF`.
unfoldable pub give_back : Callee → Callee
give_back s = record s {
  locked = false;
  pysession = s.pysession - 1;
  pychannel = s.pychannel - 1;
  pyabstract = s.pyabstract - 1;
  arglist = s.arglist - 1;
}

unfoldable pub stub_x11_callback_func : Option (Option ℤ) → Callee → Callee
unfolding make_arguments build_arglist give_back
stub_x11_callback_func result s =
    let called = after_call result (build_arglist (make_arguments s)) in
    if is_negative (rc_of result)
    then record called {
      error = some (type_error "An error occured while calling callback function");
    }
    else give_back called

-- The Python function returned a number with the highest of its lowest 32 bits set.
abbrev pub sign_bit : Option (Option ℤ) → Bool
sign_bit none = false
sign_bit (some none) = false
sign_bit (some (some n)) = not (ltb (low_bits 32 n) (2 ^ 31))
