-- ===== src/Channel/Protocol.antt =====
-- What the methods of src/channel.c return to the interpreter, whatever libssh2 answers.
use pylibssh.Prelude.{
  ℤ, pos, int_eq, is_negative, Bool, not, ◌&&◌, sym, Bool-cases, inl, inr, ◌≡◌, refl, true, false,
  is_some, Option, none, some, given, List, ◌∷◌, if◌then◌else◌,
}
use pylibssh.Host.{Env, Host, Io, invoke, pure, fail_with, set_error, ◌>>=◌, ◌>>◌, parsed}
use pylibssh.Host.Types.{is_null_ptr, Value, null, bytes, is_null}
use pylibssh.Host.Calls.{Event, malloc, channel_eof, channel_read}
use pylibssh.Report.{guarded}
use pylibssh.Report.Honest.{IsHonest, honest_rules}
use pylibssh.Handles.{Channel}
use pylibssh.Channel.Table.{Method, run_channel}
use pylibssh.Channel.Requests.{
  pty, pty_resize, shell, execute, setenv, setblocking, x11_req, receive_window_adjust,
}
use pylibssh.Channel.Streams.{
  read, read_buffer, read_failed, prefix, read_ex, write, flush, send_eof, wait_eof, wait_closed,
}
use pylibssh.Channel.Status.{exit_status, eof, window_read, window_write, poll_read}

-- `malloc` gives memory whenever it is asked.
abbrev pub CanAllocate : Env → Type 0
CanAllocate env = (log : List Event) (n : ℤ) → is_null_ptr (env.reply log (malloc n)).ptr ≡ false

module _ (env : Env) where
  malloc-IsHonest :
      (n : ℤ) (k : Io Value)
      → CanAllocate env
      → IsHonest env k
      → IsHonest env (invoke (malloc n) >>= λ cbuf. if is_null_ptr cbuf.ptr then pure null else k)
  unfolding invoke ◌>>=◌
  malloc-IsHonest n k can next = record {
    honest = λ h clean. rw (can h.log n) (next.honest _ clean);
  }

  read_buffer-IsHonest :
      (self : Channel) (size : ℤ) → CanAllocate env → IsHonest env (read_buffer self size)
  unfolding read_buffer
  read_buffer-IsHonest self size can = search (honest_rules, malloc-IsHonest) depth 18

run_channel-IsHonest :
    (env : Env) (self : Channel) (m : Method) → CanAllocate env → IsHonest env (run_channel m self)
unfolding run_channel pty pty_resize shell execute setenv setblocking x11_req receive_window_adjust
    read read_ex write flush send_eof wait_eof wait_closed exit_status eof window_read window_write
    poll_read
run_channel-IsHonest env self (Method.read args) can =
    search (honest_rules, read_buffer-IsHonest) depth 18
run_channel-IsHonest env self m can = search honest_rules depth 18

-- As long as `malloc` gives memory, every method of a channel object, called while no exception is
-- set, returns `NULL` exactly if it has set an exception when it returns.
pub run_channel-is_null :
    (env : Env) (self : Channel) (m : Method) (h : Host)
    → CanAllocate env
    → h.error ≡ none
    → let r = run_channel m self env h in is_null r.0 ≡ is_some r.1.error
run_channel-is_null env self m h can clean = (run_channel-IsHonest env self m can).honest h clean

-- The call of `malloc` that `read` makes, in the state in which it makes it.
abbrev pub eof_event : Env → Channel → Host → Event
eof_event env self h = record {
  call = channel_eof self.channel;
  reply = env.reply h.log (channel_eof self.channel);
}

-- `NULL` without an exception, which the interpreter takes for an error of its own.
abbrev pub breaks_protocol : Value → Host → Bool
breaks_protocol v h = is_null v && not (is_some h.error)

kept_protocol : (a b : Bool) → a ≡ b → (a && not b) ≡ false
kept_protocol true b same = rw (sym same) refl
kept_protocol false b same = refl

-- The part of `read` behind a `malloc` that gave memory.
filled-IsHonest :
    (env : Env) (self : Channel) (size : ℤ)
    → IsHonest env (
        invoke (channel_read self.channel (pos 0) size) >>= λ r.
        if is_negative r.rc then read_failed self r.rc else pure (bytes (prefix r.rc r.buffer)))
filled-IsHonest env self size = search honest_rules depth 18

read_buffer-breaks_protocol :
    (env : Env) (self : Channel) (size : ℤ) (h : Host)
    → h.error ≡ none
    → let r = read_buffer self size env h in
      breaks_protocol r.0 r.1 ≡ is_null_ptr (env.reply h.log (malloc size)).ptr
unfolding read_buffer invoke pure ◌>>=◌
read_buffer-breaks_protocol env self size h clean =
    elim (Bool-cases (is_null_ptr (env.reply h.log (malloc size)).ptr)) [
      | inl failed ↦ rw (failed, clean) refl
      | inr got ↦ rw got (kept_protocol _ _ ((filled-IsHonest env self size).honest _ clean))
    ]

-- `read`, called while no exception is set with arguments that are accepted, returns `NULL` without
-- setting an exception if and only if the channel is open, libssh2 does not say that the remote end
-- has sent EOF, and `malloc` gives no memory.
pub read_without_memory :
    (env : Env) (self : Channel) (size : Option ℤ) (h : Host)
    → h.error ≡ none
    → let r = run_channel (Method.read (some size)) self env h in
      breaks_protocol r.0 r.1 ≡ (
        not (is_null_ptr self.channel)
        && (not (int_eq (env.reply h.log (channel_eof self.channel)).rc (pos 1))
            && is_null_ptr
                (env.reply (eof_event env self h ∷ h.log) (malloc (given (pos 1024) size))).ptr))
unfolding run_channel read guarded parsed invoke fail_with set_error pure ◌>>=◌ ◌>>◌
read_without_memory env self size h clean = elim (Bool-cases (is_null_ptr self.channel)) [
  | inl shut ↦ rw shut refl
  | inr live ↦ elim (Bool-cases (int_eq (env.reply h.log (channel_eof self.channel)).rc (pos 1))) [
    | inl at_end ↦ rw (live, at_end) refl
    | inr open_end ↦
        rw (live, open_end) (read_buffer-breaks_protocol env self (given (pos 1024) size) _ clean)
  ]
]
