-- ===== src/Store/Dealloc.antt =====
-- `PYLIBSSH2_Session_dealloc` of src/session.c.
use mathlib.Core.List.{Perm}
use pylibssh.Prelude.{◌≡◌, ap, Option, some, none, ◌++◌, List, ◌∷◌, true, false, ℤ}
use pylibssh.Host.{Env, invoke}
use pylibssh.Host.Types.{ObjId, is_null_ptr, null_ptr}
use pylibssh.Host.Calls.{Event, Reply, session_disconnect, session_free}
use pylibssh.Handles.{Session}
use pylibssh.Store.Run.{
  Counted, World, write-same, pure, ◌>>=◌, ◌>>◌, lift, load, modify, destroy, release, session_slot,
  sftp_slot, channel_slot, listener_slot,
}
use pylibssh.Store.Objects.{free_set, dealloc_sftp, dealloc_channel, dealloc_listener}
use pylibssh.Store.Sessions.{close_session, dealloc_session}
use pylibssh.Store.Returns.{Returns, returns, chain}
use pylibssh.Store.Resources.{Resource, ended}
use pylibssh.Store.Owning.{Contents, Owns, owed}
use pylibssh.Store.Disconnect.{Parted, Disconnected, disconnected, close_session-Disconnected}

-- The state when libssh2's session is freed, and the session object has this entry.
pub record Gone (id : ObjId) (o : Counted Session) (c : Contents) (total : List Resource)
    (entry : Option (Counted Session)) (w : World) : Type 0 where
  pub before : List Event
  pub freed : Reply
  pub reply : Reply
  pub object : w.sessions id ≡ entry
  pub parted : Parted c o.body w
  pub ends :
      w.host.log
      ≡ record { call = session_free o.body.session; reply = freed }
        ∷ record { call = session_disconnect o.body.session "end"; reply = reply }
        ∷ before
  pub gives_back : Perm (ended before) total

abbrev without_session : Counted Session → Counted Session
without_session o =
    let k = disconnected o in
    record k { body = record k.body { session = null_ptr; socket = none } }

module _ (env : Env) (id : ObjId) (o : Counted Session) (c : Contents) (start : World)
    (total : List Resource) where
  free-Gone :
      (rc : ℤ) (w : World)
      → Disconnected id o c start total rc w
      → Returns
          (λ _ w'. Gone id o c total (some (without_session o)) w')
          ((lift (invoke (session_free o.body.session))
              >> modify session_slot id (λ s. record s { session = null_ptr; socket = none }))
            env w)
  unfolding lift invoke modify ◌>>◌
  free-Gone rc w d = rw d.object (
      returns record {
        before = d.before;
        freed = env.reply w.host.log (session_free o.body.session);
        reply = d.reply;
        object = write-same w.sessions id _;
        parted = record {
          sftps = d.parted.sftps;
          channels = d.parted.channels;
          listeners = d.parted.listeners;
        };
        ends =
            ap
              (λ log.
                record {
                  call = session_free o.body.session;
                  reply = env.reply w.host.log (session_free o.body.session);
                }
                ∷ log)
              d.ends;
        gives_back = d.gives_back;
      })

  destroy-Gone :
      (w : World)
      → Gone id o c total (some (without_session o)) w
      → Returns
          (λ _ w'. Gone id o c total none w')
          ((do
            left ← load session_slot id
            free_set (λ item. release sftp_slot item (dealloc_sftp item)) left.sftps
            free_set (λ item. release channel_slot item (dealloc_channel item)) left.channels
            free_set (λ item. release listener_slot item (dealloc_listener item)) left.listeners
            destroy session_slot id)
            env w)
  unfolding load free_set destroy pure ◌>>=◌ ◌>>◌
  destroy-Gone w g = rw g.object (
      returns record {
        before = g.before;
        freed = g.freed;
        reply = g.reply;
        object = write-same w.sessions id none;
        parted = record {
          sftps = g.parted.sftps;
          channels = g.parted.channels;
          listeners = g.parted.listeners;
        };
        ends = g.ends;
        gives_back = g.gives_back;
      })

-- `PYLIBSSH2_Session_dealloc` of an open session object whose pointer is not `NULL`, and whose SFTP
-- objects, channels and listeners are there and open, as are the files and directories of the SFTP
-- objects: it returns, without a use of freed memory, whatever libssh2 answers and in whatever order
-- the sets give their elements. The session object is freed. The last two calls disconnect and then
-- free libssh2's session; before these the same is given back, and the same becomes of the objects,
-- as by `Session_close`.
pub dealloc_session-Gone :
    (env : Env) (w : World) (id : ObjId) (o : Counted Session) (c : Contents)
    → w.sessions id ≡ some o
    → is_null_ptr o.body.session ≡ false
    → o.body.opened ≡ true
    → Owns c o.body w
    → Returns
        (λ _ w'.
          Gone id o c
            (ended w.host.log ++ owed c o.body.sftps o.body.channels o.body.listeners)
            none
            w')
        (dealloc_session id env w)
unfolding dealloc_session load pure ◌>>=◌
dealloc_session-Gone env w id o c object live open_ owns =
    simp (object, live, open_)
      (chain env _ _ w (chain env _ _ w closed λ _ w1 (rc, d). free-Gone env id o c w total rc w1 d)
        λ _ w2 g. destroy-Gone env id o c w total w2 g)
  where
    total : List Resource
    total = ended w.host.log ++ owed c o.body.sftps o.body.channels o.body.listeners

    closed :
        Returns
          (λ _ w1. (rc : ℤ) × Disconnected id o c w total rc w1)
          ((close_session id >> pure tt) env w)
    closed =
        chain env _ _ w (close_session-Disconnected env w id o c object open_ owns)
          λ rc w1 d. returns (rc, d)
