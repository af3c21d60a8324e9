-- ===== src/Examples/Sessions.antt =====
-- The theorems on sessions at concrete inputs, with an agent that has one identity.
use pylibssh.Prelude.{
  ◌∷◌, pos, negsuc, is_zero, ◌≡◌, refl, Bool, is_some, some, none, List, [], ◌==◌, arith,
  if◌then◌else◌,
}
use pylibssh.Host.{Env}
use pylibssh.Host.Types.{bytes, Ptr, is_null, py_none}
use pylibssh.Host.Calls.{
  Call, Event, Reply, agent_init, agent_connect, agent_list_identities, agent_get_identity,
  agent_userauth, Kind, py_object_new, channel_open_session,
}
use pylibssh.Report.Uses.{Uses}
use pylibssh.Handles.{Session}
use pylibssh.Session.Table.{Method, run_session}
use pylibssh.Session.Scope.{run_session-Uses, run_session-is_null}
use pylibssh.Session.Setup.{hostkey_hash}
use pylibssh.Session.Digest.{hostkey_hash-zero}
use pylibssh.Session.Agent.{userauth_agent}
use pylibssh.Session.Identities.{last, next, userauth_agent-any}
use pylibssh.Store.Run.{World, ◌>>◌}
use pylibssh.Store.Returns.{Returns}
use pylibssh.Store.Sessions.{channel_close}
use pylibssh.Store.Opening.{open_session}
use pylibssh.Store.Channels.{Forgotten, open_session-channel_close}
use pylibssh.Store.Startup.{Started, startup, startup-Started}
use pylibssh.Examples.{env, env_with, answer, start}

abbrev pub a_session : Session
a_session = record {
  session = 7;
  socket = none;
  opened = Bool.false;
  sftps = [];
  channels = [];
  listeners = [];
}

abbrev agent_answers : List Event → Call → Reply
agent_answers log (agent_init session) = answer (pos 0) 5
agent_answers log (agent_connect agent) = answer (pos 0) 1
agent_answers log (agent_list_identities agent) = answer (pos 0) 1
agent_answers log (agent_get_identity agent store) =
    if store == 0 then answer (pos 0) 1 else answer (pos 1) store
agent_answers log (agent_userauth agent username store) =
    if store == 1 then answer (pos 0) 1 else answer (negsuc 0) 1
agent_answers log c = answer (negsuc 0) 1

abbrev agent_env : Env
agent_env = env_with agent_answers

abbrev first_only : Ptr → Bool
first_only x = is_zero (agent_answers [] (agent_userauth 5 "me" x)).rc

abbrev pub world : World
world = record {
  host = start;
  sessions = λ x. some (record { refs = 1; body = a_session });
  channels = λ x. none;
  listeners = λ x. none;
  sftps = λ x. none;
  handles = λ x. none;
  next = 20;
}

run_session-Uses_example : Uses 7 7 env (run_session Method.last_error a_session)
run_session-Uses_example = run_session-Uses env a_session Method.last_error refl

run_session-is_null_example :
    let r = run_session Method.session_methods a_session env start in
    is_null r.0 ≡ is_some r.1.error
run_session-is_null_example = run_session-is_null env a_session Method.session_methods start refl

userauth_agent-any_example :
    let r = userauth_agent 2 a_session (some "me") agent_env start in
    (r.0 ≡ some py_none) × (r.1.error ≡ none)
userauth_agent-any_example =
    userauth_agent-any agent_env a_session "me" 2 start 5 first_only 1 []
      (record {
        starts = λ log. refl;
        is_there = refl;
        connects = λ log. refl;
        lists = λ log. refl;
      })
      (next 1 (λ log. refl) (λ log. refl) (last {store = 1} (λ log. refl) (λ log. refl)))
      (record { decides = λ log x. refl }) (omega arith) refl

startup-Started_example :
    Returns
      (Started 3 (record { refs = 1; body = a_session }) (pos 4) (pos 0))
      (startup 3 (some (pos 4)) env world)
startup-Started_example =
    startup-Started env world 3 (record { refs = 1; body = a_session }) (pos 4) refl

open_session-channel_close_example :
    Returns
      (Forgotten 3
        (record { refs = 1; body = a_session })
        20
        0
        (record { session = 7; channel = 1 })
        (py_object_new Kind.channel ∷ channel_open_session 7 ∷ []))
      ((open_session 3 >> channel_close 3 (some 20)) env world)
open_session-channel_close_example =
    open_session-channel_close env world 3 (record { refs = 1; body = a_session }) 1 refl refl refl
      refl refl

-- A digest with a zero byte.
abbrev digest_env : Env
digest_env = env_with λ log c. record (answer (pos 0) 1) { buffer = 9 ∷ 0 ∷ 5 ∷ [] }

hostkey_hash-zero_example : (hostkey_hash a_session (some none) digest_env start).0 ≡ bytes (9 ∷ [])
hostkey_hash-zero_example =
    hostkey_hash-zero digest_env a_session start (9 ∷ []) (5 ∷ []) refl refl (refl, tt)
      (omega arith)
