-- ===== src/Store/Startup.antt =====
-- `startup` of src/session.c.
use pylibssh.Prelude.{
  ℤ, is_negative, ◌≡◌, refl, subst, List, true, [], ◌∷◌, Option, none, some, Bool-cases, inl, inr,
  if◌then◌else◌,
}
use pylibssh.Host.{Env, invoke, fail_with}
use pylibssh.Host.Types.{
  ObjId, socket_none, banner_send, kex_failure, socket_send, socket_disconnect, proto, eagain,
  interpreter_error, Value, null, py_none,
}
use pylibssh.Host.Calls.{Event, session_startup}
use pylibssh.Report.{with_message, with_both, Cases, report_code}
use pylibssh.Handles.{Session}
use pylibssh.Session.Setup.{as_file_descriptor, as_file_descriptor_lem}
use pylibssh.Report.Null.{report_code-null}
use pylibssh.Store.Returns.{Returns, returns}
use pylibssh.Store.Run.{
  write-same, Counted, World, Cmd, pure, ◌>>=◌, ◌>>◌, lift, load, modify, session_slot,
}

abbrev pub startup_cases : Cases
startup_cases =
    (socket_none, with_message "The socket is invalid: %s")
    ∷ (banner_send, with_message "Unable to send banner to remote host: %s")
    ∷ (kex_failure, with_message "Encryption key exchange with the remote host failed: %s")
    ∷ (socket_send, with_message "Unable to send data on socket: %s")
    ∷ (socket_disconnect, with_message "The socket was disconnected: %s")
    ∷ (proto, with_message "An invalid SSH protocol response was received on the socket: %s")
    ∷ (eagain, with_message "Marked for non-blocking I/O but the call would block: %s")
    ∷ []

-- Behind the call of `libssh2_session_startup`, which returned `rc`.
unfoldable pub started : ObjId → Session → ℤ → Cmd Value
started id self rc =
    if is_negative rc
    then lift (
        report_code self.session rc startup_cases (with_both "Failure establishing startup %i: %s"))
    else (do modify session_slot id (λ s. record s { opened = true }); pure py_none)

-- From behind `PyObject_AsFileDescriptor`.
unfoldable pub call_startup : ObjId → ℤ → Cmd Value
call_startup id fd = do
  self ← load session_slot id
  r ← lift (invoke (session_startup self.session fd))
  started id self r.rc

unfoldable pub startup : ObjId → Option ℤ → Cmd Value
startup id none = lift (fail_with interpreter_error)
startup id (some socket) = do
  modify session_slot id λ s. record s { socket = some socket }
  fd ← lift (as_file_descriptor socket)
  call_startup id fd

-- What `startup` leaves, `rc` being the code that libssh2 returned.
pub record Started (id : ObjId) (o : Counted Session) (fd rc : ℤ) (v : Value) (w : World)
    : Type 0 where
  pub object :
      w.sessions id
      ≡ some (record o {
        body = record o.body {
          socket = some fd;
          opened = if is_negative rc then o.body.opened else true;
        };
      })
  pub value : v ≡ (if is_negative rc then null else py_none)

started-Started :
    (env : Env) (w : World) (id : ObjId) (o : Counted Session) (fd rc : ℤ)
    → w.sessions id ≡ some (record o { body = record o.body { socket = some fd } })
    → Returns (Started id o fd rc) (started id (record o.body { socket = some fd }) rc env w)
unfolding started modify lift pure ◌>>=◌ ◌>>◌
started-Started env w id o fd rc here = elim (Bool-cases (is_negative rc)) [
  | inl failed ↦ rw failed (
      returns record {
        object = rw failed here;
        value = rw failed (report_code-null env o.body.session rc startup_cases _ w.host);
      })
  | inr fine ↦
      rw (fine, here)
        (returns record { object = rw fine (write-same w.sessions id _); value = rw fine refl })
]

call_startup-Started :
    (env : Env) (w : World) (id : ObjId) (o : Counted Session) (fd : ℤ) (log : List Event)
    → w.sessions id ≡ some (record o { body = record o.body { socket = some fd } })
    → w.host.log ≡ log
    → Returns
        (Started id o fd (env.reply log (session_startup o.body.session fd)).rc)
        (call_startup id fd env w)
unfolding call_startup load lift invoke ◌>>=◌
call_startup-Started env w id o fd log here quiet =
    subst
      (λ l.
        Returns (Started id o fd (env.reply l (session_startup o.body.session fd)).rc)
          (call_startup id fd env w))
      quiet (rw here (started-Started env _ id o fd _ here))

-- `startup` with a socket, on a session object that is there, returns without a use of freed memory,
-- whatever libssh2 answers. The object keeps the socket also if the call fails. With `rc` for what
-- `libssh2_session_startup` returned: if it is negative, `opened` stays as it was and the method
-- returns `NULL`; else the session is open and the method returns `None`.
pub startup-Started :
    (env : Env) (w : World) (id : ObjId) (o : Counted Session) (fd : ℤ)
    → w.sessions id ≡ some o
    → Returns
        (Started id o fd (env.reply w.host.log (session_startup o.body.session fd)).rc)
        (startup id (some fd) env w)
unfolding startup modify lift ◌>>=◌ ◌>>◌
startup-Started env w id o fd here =
    let (same, quiet) = as_file_descriptor_lem env fd w.host in
    rw (here, same)
      (call_startup-Started env _ id o fd w.host.log (write-same w.sessions id _) quiet)
