-- ===== src/Session/Keyboard.antt =====
-- `userauth_keyboardinteractive` of src/session.c and the callback that it gives to libssh2.
use pylibssh.Prelude.{
  ◌==◌, ℕ, zero, suc, ℤ, pos, negsuc, is_negative, String, List, [], ◌∷◌, Option, none, some, Bool,
  if◌then◌else◌,
}
use pylibssh.Host.{Io, ◌>>=◌, invoke, parsed}
use pylibssh.Host.Types.{Ptr, alloc, socket_send, authentication_failed, Value, py_none}
use pylibssh.Host.Calls.{userauth_keyboard_interactive}
use pylibssh.Report.{with_message, with_both, unless_failed}
use pylibssh.Handles.{Session}

-- `LIBSSH2_USERAUTH_KBDINT_RESPONSE`; the text is `none` where it is `NULL`.
pub record Response : Type 0 where
  pub text : Option String
  pub length : ℤ

-- The static variables `interactive_response`, a pointer into the argument of the call `owner`, and
-- `interactive_response_len`. They are those of the extension: all sessions share them. The text is
-- `none` where the pointer is `NULL`, or that call has returned and its argument may be freed.
pub record Statics : Type 0 where
  pub owner : ℕ
  pub interactive_response : Option String
  pub interactive_response_len : ℤ

-- The rounds that are left of the loop of `stub_kbd_callback_func`, from `i` on. `memory` says in which
-- of them `strdup` gets memory, which the code does not test.
unfoldable pub respond : Statics → (memory : ℕ → Bool) → ℕ → ℕ → List Response
respond s memory i zero = []
respond s memory i (suc left) =
    record {
      text = if memory i then s.interactive_response else none;
      length = s.interactive_response_len;
    }
    ∷ respond s memory (suc i) left

-- `stub_kbd_callback_func`: the responses that it writes for a number of prompts.
unfoldable pub stub_kbd_callback_func : Statics → (memory : ℕ → Bool) → ℤ → List Response
unfolding respond
stub_kbd_callback_func s memory (pos num_prompts) = respond s memory 0 num_prompts
stub_kbd_callback_func s memory (negsuc num_prompts) = []

-- What happens to the static variables: a thread calls the method for a session, and its arguments are
-- accepted; or libssh2, in such a call for a session, calls the callback; or a call returns. The lock of
-- the interpreter is not held during the call, so another thread's call may come before libssh2's.
pub data Turn : Type 0 where
  calls : (call : ℕ) (session : Ptr) (username response : String) (response_len : ℤ) → Turn
  prompts : (session : Ptr) (memory : ℕ → Bool) (num_prompts : ℤ) → Turn
  returns : (call : ℕ) → Turn

-- `PyArg_ParseTuple` writes into the static variables.
unfoldable pub turn : Turn → Statics → Statics
turn (calls call session username response response_len) s = record {
  owner = call;
  interactive_response = some response;
  interactive_response_len = response_len;
}
turn (prompts session memory num_prompts) s = s
turn (returns call) s = if call == s.owner then record s { interactive_response = none } else s

unfoldable pub after_turns : List Turn → Statics → Statics
unfolding turn
after_turns [] s = s
after_turns (t ∷ rest) s = after_turns rest (turn t s)

-- The method passes the callback on, with the static variables that the callback reads.
unfoldable pub keyboardinteractive : Session → Option (String × String × ℤ) → Io Value
keyboardinteractive self args = parsed args λ (username, response, response_len). do
  r ← invoke (userauth_keyboard_interactive self.session username response response_len)
  unless_failed (is_negative r.rc) self.session r.rc
      ((alloc, with_message "An internal memory allocation call failed: %s")
        ∷ (socket_send, with_message "Unable to send data on socket: %s")
        ∷ (
          authentication_failed,
          with_message "failed, invalid username/password or public/private key: %s",
        )
        ∷ [])
      (with_both "Unknown Error %i: %s") py_none
