-- ===== src/Store/Channels.antt =====
-- A channel's way from `open_session` to `channel_close`, two methods of src/session.c.
use pylibssh.Prelude.{
  ℕ, suc, ◌≡◌, refl, sym, subst, true, false, some, List, ◌∷◌, map, ==_iff, arith,
}
use pylibssh.Host.{called, Env, invoke}
use pylibssh.Host.Calls
use pylibssh.Host.Types.{ObjId, Ptr, null_ptr, is_null_ptr, Value, object, py_none}
use pylibssh.Host.Calls.{Kind, Call, Event, channel_open_session, channel_free, py_object_new}
use pylibssh.Handles.{Session, Channel}
use pylibssh.Store.Run.{
  write-same, Counted, World, ok, Cmd, pure, ◌>>=◌, ◌>>◌, lift, write, load, modify, retain,
  release, drop_ref, channel_slot,
}
use pylibssh.Store.Sets.{contains, discard}
use pylibssh.Store.Objects.{close_channel, dealloc_channel}
use pylibssh.Store.Sessions
use pylibssh.Store.Sessions.{discard_from}
use pylibssh.Store.Opening.{insert_object, new_object, add_channel, track_channel, open_session}
use pylibssh.Store.Returns.{Returns, returns}

-- The state behind a successful `open_session`.
abbrev pub opened : Env → World → ObjId → Counted Session → Ptr → World
opened env w id o p = record w {
  host = record w.host {
    log =
        called env (called env w.host.log (channel_open_session o.body.session))
          (py_object_new Kind.channel);
  };
  sessions =
      write w.sessions id
        (some (record o { body = record o.body { channels = w.next ∷ o.body.channels } }));
  channels =
      write
        (write w.channels w.next
          (some (record { refs = 1; body = record { session = o.body.session; channel = p } })))
        w.next
        (some (record { refs = 2; body = record { session = o.body.session; channel = p } }));
  next = suc w.next;
}

pub track_channel-object :
    (env : Env) (w : World) (id : ObjId) (o : Counted Session) (c : ObjId) (k : Counted Channel)
    → w.sessions id ≡ some o
    → w.channels c ≡ some k
    → track_channel id (some c) env w
      ≡ ok (object c) (record w {
        sessions =
            write w.sessions id
              (some (record o { body = record o.body { channels = c ∷ o.body.channels } }));
        channels = write w.channels c (some (record k { refs = suc k.refs }));
      })
unfolding track_channel add_channel modify retain pure ◌>>◌
track_channel-object env w id o c k session channel = rw (session, channel) refl

open_session-opened :
    (env : Env) (w : World) (id : ObjId) (o : Counted Session)
    → w.sessions id ≡ some o
    → is_null_ptr o.body.session ≡ false
    → is_null_ptr (env.reply w.host.log (channel_open_session o.body.session)).ptr ≡ false
    → is_null_ptr
        (env.reply
          (called env w.host.log (channel_open_session o.body.session))
          (py_object_new Kind.channel)).ptr
      ≡ false
    → open_session id env w
      ≡ ok
          (object w.next)
          (opened env w id o (env.reply w.host.log (channel_open_session o.body.session)).ptr)
unfolding open_session new_object insert_object load lift invoke ◌>>=◌
open_session-opened env w id o here live gives allocates =
    simp (here, live, gives, allocates)
      (track_channel-object env _ id o w.next _ here (write-same w.channels w.next _))

contains-head : (c : ObjId) (cs : List ObjId) → contains c (c ∷ cs) ≡ true
unfolding contains
contains-head c cs = rw ((==_iff c c).1 refl) refl

discard-head : (c : ObjId) (cs : List ObjId) → discard c (c ∷ cs) ≡ cs
unfolding discard
discard-head c cs = rw ((==_iff c c).1 refl) refl

release-kept :
    (env : Env) (w : World) (c n : ℕ) (b : Channel) (d : Cmd (Unit {0}))
    → w.channels c ≡ some (record { refs = suc (suc n); body = b })
    → release channel_slot c d env w
      ≡ ok tt
          (record w { channels = write w.channels c (some (record { refs = suc n; body = b })) })
unfolding release drop_ref
release-kept env w c n b d here = ground arith

-- The state when a session has forgotten a channel.
abbrev released : World → ObjId → Counted Session → ObjId → ℕ → Channel → World
released w id o c n b = record w {
  sessions = write w.sessions id (some o);
  channels = write w.channels c (some (record { refs = suc n; body = b }));
}

module _ (env : Env) (w : World) (id : ObjId) (o : Counted Session) (c n : ℕ) (b : Channel)
    (session : w.sessions id
      ≡ some (record o { body = record o.body { channels = c ∷ o.body.channels } }))
    (channel : w.channels c ≡ some (record { refs = suc (suc n); body = b })) where
  drop : List ObjId → Cmd (Unit {0})
  drop rest = Sessions.set_channels id rest >> release channel_slot c (dealloc_channel c)

  drop-released : drop o.body.channels env w ≡ ok tt (released w id o c n b)
  unfolding drop modify ◌>>◌
  drop-released = rw session (
      release-kept env (record w { sessions = write w.sessions id (some o) }) c n b
        (dealloc_channel c) channel)

  discard_from-released :
      discard_from
        (c ∷ o.body.channels)
        (Sessions.set_channels id)
        c
        (release channel_slot c (dealloc_channel c))
        env
        w
      ≡ ok tt (released w id o c n b)
  unfolding discard_from drop
  discard_from-released = rw (contains-head c o.body.channels) (
      subst (λ rest. drop rest env w ≡ ok tt (released w id o c n b))
        (sym (discard-head c o.body.channels)) drop-released)

pub close_channel-open :
    (env : Env) (w : World) (c : ObjId) (k : Counted Channel)
    → w.channels c ≡ some k
    → is_null_ptr k.body.channel ≡ false
    → close_channel c env w
      ≡ ok tt (record w {
        host = record w.host {
          log =
              called env
                (called env w.host.log (Calls.channel_close k.body.channel))
                (channel_free k.body.channel);
        };
        channels =
            write w.channels c (some (record k { body = record k.body { channel = null_ptr } }));
      })
unfolding close_channel load modify lift invoke ◌>>=◌ ◌>>◌
close_channel-open env w c k here live = simp (here, live) refl

pub close_channel-null :
    (env : Env) (w : World) (c : ObjId) (k : Counted Channel)
    → w.channels c ≡ some k
    → is_null_ptr k.body.channel ≡ true
    → close_channel c env w ≡ ok tt w
unfolding close_channel load pure ◌>>=◌
close_channel-null env w c k here null = simp (here, null) refl

-- The state when a channel object was closed that its session kept and the caller still has.
pub record Forgotten (id : ObjId) (o : Counted Session) (c n : ℕ) (b : Channel) (before : List Call)
    (v : Value) (w : World) : Type 0 where
  pub value : v ≡ py_none
  pub session : w.sessions id ≡ some o
  pub channel :
      w.channels c ≡ some (record { refs = suc n; body = record b { channel = null_ptr } })
  pub calls :
      map (λ e. e.call) w.host.log ≡ channel_free b.channel ∷ Calls.channel_close b.channel ∷ before

channel_close-Forgotten :
    (env : Env) (w : World) (id : ObjId) (o : Counted Session) (c n : ℕ) (b : Channel)
    → w.sessions id ≡ some (record o { body = record o.body { channels = c ∷ o.body.channels } })
    → w.channels c ≡ some (record { refs = suc (suc n); body = b })
    → is_null_ptr b.channel ≡ false
    → Returns
        (Forgotten id o c n b (map (λ e. e.call) w.host.log))
        (Sessions.channel_close id (some c) env w)
unfolding Sessions.channel_close load pure ◌>>=◌ ◌>>◌
channel_close-Forgotten env w id o c n b session channel live =
    simp
      (
        session,
        discard_from-released env w id o c n b session channel,
        close_channel-open env (released w id o c n b) c (record { refs = suc n; body = b })
            (write-same w.channels c _) live,
      )
      (returns record {
        value = refl;
        session = write-same w.sessions id _;
        channel = write-same (released w id o c n b).channels c _;
        calls = refl;
      })

-- `open_session` on a session object that is there, where libssh2 gives a channel and no allocation
-- fails, and then `channel_close` of the new object while the caller still has it: it returns `None`
-- without a use of freed memory, the session object is as it was at the start, the channel object is
-- left with the caller's reference and a `NULL` pointer, and the calls were, newest first: free and
-- close of the new channel, the allocation, and the opening of the channel.
pub open_session-channel_close :
    (env : Env) (w : World) (id : ObjId) (o : Counted Session) (p : Ptr)
    → w.sessions id ≡ some o
    → is_null_ptr o.body.session ≡ false
    → (env.reply w.host.log (channel_open_session o.body.session)).ptr ≡ p
    → is_null_ptr p ≡ false
    → is_null_ptr
        (env.reply
          (called env w.host.log (channel_open_session o.body.session))
          (py_object_new Kind.channel)).ptr
      ≡ false
    → Returns
        (Forgotten id o w.next 0
          (record { session = o.body.session; channel = p })
          (py_object_new Kind.channel
            ∷ channel_open_session o.body.session
            ∷ map (λ e. e.call) w.host.log))
        ((open_session id >> Sessions.channel_close id (some w.next)) env w)
unfolding ◌>>◌
open_session-channel_close env w id o p here live gives there allocates =
    rw
      (subst (λ q. open_session id env w ≡ ok (object w.next) (opened env w id o q)) gives
        (open_session-opened env w id o here live (rw gives there) allocates))
      (channel_close-Forgotten env (opened env w id o p) id o w.next 0
        (record { session = o.body.session; channel = p }) (write-same w.sessions id _)
        (write-same
          (write w.channels w.next
            (some (record { refs = 1; body = record { session = o.body.session; channel = p } })))
          w.next _)
        there)
