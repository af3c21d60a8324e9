-- ===== src/Session/Agent.antt =====
-- `userauth_agent` of src/session.c.
use pylibssh.Prelude.{
  ℕ, zero, suc, ℤ, pos, is_negative, is_zero, int_eq, String, Bool, true, false, [], Option, none,
  some, is_some, if◌then◌else◌,
}
use pylibssh.Host.{Io, pure, ◌>>=◌, ◌>>◌, invoke, set_error, fail_with}
use pylibssh.Host.Types.{
  Ptr, null_ptr, is_null_ptr, Exception, ssh_error, interpreter_error, Value, null, py_none,
}
use pylibssh.Host.Calls.{
  agent_init, agent_connect, agent_list_identities, agent_get_identity, agent_userauth,
  agent_disconnect, agent_free,
}
use pylibssh.Handles.{Session}

-- `PyErr_Occurred()`
unfoldable pub occurred : Io Bool
occurred env h = (is_some h.error, h)

abbrev pub no_identity : Exception
no_identity = ssh_error "Unable to get identity" []

abbrev pub not_accepted : Exception
not_accepted = ssh_error "Unable userauth using agent identities" []

-- The part of a round behind `libssh2_agent_get_identity`, which returned `rc` and left `store`.
-- `again` is the next round. The identity is tried also if the agent said that there are no more.
unfoldable pub try_identity : (Ptr → Io Bool) → Ptr → String → ℤ → Ptr → Io Bool
try_identity again agent username rc store = do
  auth ← invoke (agent_userauth agent username store)
  if is_zero auth.rc
      then pure true
      else if int_eq rc (pos 1)
      then set_error not_accepted >> pure true
      else if is_zero rc
      then again store
      else pure true

-- The loop, on fuel: `false` means that the fuel ran out. The reply's `ptr` is the value of `store`
-- after the call.
unfoldable pub agent_loop : ℕ → Ptr → String → Ptr → Io Bool
unfolding try_identity
agent_loop zero agent username store = pure false
agent_loop (suc fuel) agent username store = do
  r ← invoke (agent_get_identity agent store)
  if is_negative r.rc
      then set_error no_identity >> pure true
      else try_identity (agent_loop fuel agent username) agent username r.rc r.ptr

-- From the call of `libssh2_agent_list_identities` to the end of the loop.
unfoldable pub with_identities : ℕ → Ptr → String → Io Bool
with_identities fuel agent username = do
  r ← invoke (agent_list_identities agent)
  if is_zero r.rc
      then agent_loop fuel agent username null_ptr
      else set_error (ssh_error "Unable to list identities" []) >> pure true

unfoldable pub connected : ℕ → Ptr → String → Io Bool
connected fuel agent username = do
  ended ← with_identities fuel agent username
  invoke (agent_disconnect agent)
  pure ended

-- From behind the call of `libssh2_agent_connect`, which returned `rc`, to the end.
unfoldable pub after_connect : ℕ → Ptr → String → ℤ → Io (Option Value)
after_connect fuel agent username rc = do
  ended ← if is_zero rc then connected fuel agent username else pure true
  invoke (agent_free agent)
  failed ← occurred
  pure (if ended then some (if failed then null else py_none) else none)

-- What is done with an agent.
unfoldable pub with_agent : ℕ → Ptr → String → Io (Option Value)
with_agent fuel agent username = do
  r ← invoke (agent_connect agent)
  after_connect fuel agent username r.rc

-- `none` means that the fuel ran out.
unfoldable pub userauth_agent : ℕ → Session → Option String → Io (Option Value)
userauth_agent fuel self none = fail_with interpreter_error >>= λ v. pure (some v)
userauth_agent fuel self (some username) = do
  agent ← invoke (agent_init self.session)
  if is_null_ptr agent.ptr
      then (fail_with (ssh_error "Unable to initialize agent" []) >>= λ v. pure (some v))
      else with_agent fuel agent.ptr username
