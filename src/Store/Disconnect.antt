-- ===== src/Store/Disconnect.antt =====
-- `Session_close` of src/session.c.
use mathlib.Core.List.{Mem, Perm, append-nil, flat_map}
use mathlib.Core.List.Perm
use pylibssh.Prelude.{◌≡◌, refl, subst, some, ◌++◌, List, [], ◌∷◌, true, false, ℤ}
use pylibssh.Host.{Env, invoke}
use pylibssh.Host.Types.{ObjId}
use pylibssh.Host.Calls.{Event, Reply, session_disconnect}
use pylibssh.Handles.{Session}
use pylibssh.Store.Run.{
  Counted, World, write-same, pure, ◌>>=◌, ◌>>◌, lift, load, modify, session_slot,
}
use pylibssh.Store.Sessions.{close_session}
use pylibssh.Store.Returns.{Returns, returns, chain}
use pylibssh.Store.Resources.{Resource, ended, obtained}
use pylibssh.Store.Entries.{Kept-start, Kept-end}
use pylibssh.Store.Owning.{Contents, Owns, owed}
use pylibssh.Store.Rounds.{
  Draining, sftp_after, channel_after, listener_after, sftps_drained, channels_drained,
  listeners_drained,
}

-- What becomes of the objects of a session that is closed: each has lost the session's reference. It
-- is freed if that was the last one; else an SFTP object or a channel is left closed, and a listener
-- as it was.
pub record Parted (c : Contents) (s : Session) (w : World) : Type 0 where
  pub sftps : (x : ObjId) → Mem x s.sftps → w.sftps x ≡ sftp_after c x
  pub channels : (x : ObjId) → Mem x s.channels → w.channels x ≡ channel_after c x
  pub listeners : (x : ObjId) → Mem x s.listeners → w.listeners x ≡ listener_after c x

-- The session object when it is closed.
abbrev pub disconnected : Counted Session → Counted Session
disconnected o = record o {
  body = record o.body { sftps = []; channels = []; listeners = []; opened = false };
}

-- The state when `Session_close` of such a session object returns `rc`.
pub record Disconnected (id : ObjId) (o : Counted Session) (c : Contents) (start : World)
    (total : List Resource) (rc : ℤ) (w : World) : Type 0 where
  pub before : List Event
  pub reply : Reply
  pub object : w.sessions id ≡ some (disconnected o)
  pub parted : Parted c o.body w
  pub others : (x : ObjId) → ¬ Mem x o.body.channels → w.channels x ≡ start.channels x
  pub next : w.next ≡ start.next
  pub gained : obtained w.host.log ≡ obtained start.host.log
  pub ends :
      w.host.log ≡ record { call = session_disconnect o.body.session "end"; reply = reply } ∷ before
  pub returned : rc ≡ reply.rc
  pub gives_back : Perm (ended before) total

module _ (env : Env) (id : ObjId) (o : Counted Session) (c : Contents) (start : World)
    (owns : Owns c o.body start) (total : List Resource) where
  disconnect-Disconnected :
      (w : World)
      → Draining env id o c start owns total [] [] [] w
      → Returns (Disconnected id o c start total) (
          (do
            r ← lift (invoke (session_disconnect o.body.session "end"))
            modify session_slot id λ s. record s { opened = false }
            pure r.rc)
            env w)
  unfolding flat_map lift invoke modify pure ◌>>=◌ ◌>>◌
  disconnect-Disconnected w d = rw d.object (
      returns record {
        before = w.host.log;
        reply = env.reply w.host.log (session_disconnect o.body.session "end");
        object = write-same w.sessions id _;
        parted = record {
          sftps = Kept-end d.sftps_kept;
          channels = Kept-end d.channels_kept;
          listeners = Kept-end d.listeners_kept;
        };
        others = d.channels_kept.outside;
        next = d.next;
        gained = d.gained;
        ends = refl;
        returned = refl;
        gives_back = subst (λ rs. Perm rs total) (append-nil (ended w.host.log)) d.adds_up;
      })

-- `Session_close` of an open session object whose SFTP objects, channels and listeners are there and
-- open, as are the files and directories of the SFTP objects: whatever libssh2 answers and in
-- whatever order the sets give their elements, it returns, without a use of freed memory, what
-- `libssh2_session_disconnect` returned, which is its last call. The session is not open any more
-- and its sets are empty. Each of the objects has lost the session's reference and is freed if that
-- was the last one; if not, the pointer of an SFTP object or a channel is `NULL`, and a listener is
-- unchanged. Other channel objects are as they were, and nothing is taken from libssh2. What was
-- given back to it before the last call is what was at the start and, once each, the SFTP sessions, their handles, the channels, and the listeners that are freed.
pub close_session-Disconnected :
    (env : Env) (w : World) (id : ObjId) (o : Counted Session) (c : Contents)
    → w.sessions id ≡ some o
    → o.body.opened ≡ true
    → Owns c o.body w
    → Returns
        (Disconnected id o c w
          (ended w.host.log ++ owed c o.body.sftps o.body.channels o.body.listeners))
        (close_session id env w)
unfolding close_session load pure ◌>>=◌
close_session-Disconnected env w id o c object open_ owns =
    simp (object, open_)
      (chain env _ _ w
        (sftps_drained env id o c w owns total o.body.sftps o.body.channels o.body.listeners w
          start)
        λ _ w1 d1.
          chain env _ _ w1
            (channels_drained env id o c w owns total o.body.channels o.body.listeners w1 d1)
            λ _ w2 d2.
              chain env _ _ w2 (listeners_drained env id o c w owns total o.body.listeners w2 d2)
                λ _ w3 d3. disconnect-Disconnected env id o c w owns total w3 d3)
  where
    total : List Resource
    total = ended w.host.log ++ owed c o.body.sftps o.body.channels o.body.listeners

    start : Draining env id o c w owns total o.body.sftps o.body.channels o.body.listeners w
    start = record {
      object = object;
      sftps_kept = Kept-start owns.sftps_distinct owns.sftps_there;
      channels_kept = Kept-start owns.channels_distinct owns.channels_there;
      listeners_kept = Kept-start owns.listeners_distinct owns.listeners_there;
      handles_apart = owns.handles_distinct;
      handles_kept = owns.handles_there;
      next = refl;
      gained = refl;
      adds_up = Perm.refl _;
    }
