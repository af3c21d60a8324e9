-- ===== src/Session/Answers.antt =====
-- What the callbacks of src/session.c do: the answers of keyboard-interactive authentication, and
-- what `callback_set` accepts.
use pylibssh.Prelude.{◌==◌, ℕ, ℤ, false, ◌≡◌, given, String, Bool, length, some}
use pylibssh.Host.{Host}
use pylibssh.Handles.{Session}
use pylibssh.Session.Keyboard.{Response, Statics, Turn, calls, prompts, returns}
use pylibssh.Session.Callback.{Callback}

-- libssh2 calls the callback, for whichever session, or another call returns.
abbrev pub IsLater : ℕ → Turn → Type 0
IsLater last (calls call session username response response_len) = ⊥
IsLater last (prompts session memory num_prompts) = Unit {0}
IsLater last (returns call) = (call == last) ≡ false

-- The text is that response, or `strdup` got no memory for it.
abbrev pub IsResponse : String → ℤ → Response → Type 0
IsResponse response response_len r = (given response r.text ≡ response) × (r.length ≡ response_len)

module _ (call : ℕ) (response : String) (response_len : ℤ) (memory : ℕ → Bool) where
  abbrev last_statics : Statics
  last_statics = record {
    owner = call;
    interactive_response = some response;
    interactive_response_len = response_len;
  }
