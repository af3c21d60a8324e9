-- ===== src/Host.antt =====
-- The outside of the extension, libssh2 and CPython, as a parameter: `Env` answers each call by a
-- function of all the calls made before it. A run keeps the calls in a log, newest first, beside
-- the exception that is set in the interpreter, if one is.
pub mod Types
pub mod Calls
use pylibssh.Prelude.{ℕ, ℤ, List, ◌∷◌, Option, some}
use Types.{Code, OpenFlag, AttrFlag, Exception, Value, null}
use Calls.{Call, Reply, Event}

-- `reply` stands for libssh2 and the allocators, `code`, `open_flag` and `attr_flag` for the numbers
-- in its headers, `pick` for the element that `PySet_Pop` takes.
pub record Env : Type 0 where
  pub reply : List Event → Call → Reply
  pub code : Code → ℤ
  pub open_flag : OpenFlag → ℕ
  pub attr_flag : AttrFlag → ℕ
  pub pick : List ℕ → ℕ

pub record Host : Type 0 where
  pub log : List Event
  pub error : Option Exception

abbrev pub Io : Type 0 → Type 0
Io A = Env → Host → A × Host

module _ {A : Type 0} where
  unfoldable pub pure : A → Io A
  pure a env h = (a, h)

  infixl 5 ◌>>=◌ ◌>>◌
  unfoldable pub ◌>>=◌ : {B : Type 0} → Io A → (A → Io B) → Io B
  ◌>>=◌ m k env h = let r = m env h in k r.0 env r.1

  unfoldable pub ◌>>◌ : {B : Type 0} → Io A → Io B → Io B
  ◌>>◌ m k env h = k env (m env h).1

-- A call of a function that is not in src/.
unfoldable pub invoke : Call → Io Reply
invoke c env h =
    let r = env.reply h.log c in (r, record h { log = record { call = c; reply = r } ∷ h.log })

-- The log after one more call.
abbrev pub called : Env → List Event → Call → List Event
called env log c = record { call = c; reply = env.reply log c } ∷ log

-- `PyErr_SetString`, `PyErr_Format`, `PyErr_SetObject`: a later exception replaces an earlier one.
unfoldable pub set_error : Exception → Io (Unit {0})
set_error e env h = (tt, record h { error = some e })

-- Sets an exception and returns `NULL`.
unfoldable pub fail_with : Exception → Io Value
fail_with e = set_error e >> pure null

-- The method's arguments after `PyArg_ParseTuple`; `none` stands for arguments that it refuses,
-- having set an exception.
unfoldable pub parsed : {A : Type 0} → Option A → (A → Io Value) → Io Value
parsed Option.none k = fail_with Exception.interpreter_error
parsed (some a) k = k a
