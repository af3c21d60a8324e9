-- ===== src/Store/Client/Closing.antt =====
-- `Session_close` of src/session.c, and the methods that close an object of a session, keep the
-- references as many as there are.
use mathlib.Core.List.{Perm}
use pylibssh.Prelude.{
  is_negative, true, String, ◌+◌, ◌≡◌, refl, false, Option, none, some, List, [], ◌∷◌, Bool-cases,
  inl, inr, arith,
}
use pylibssh.Host
use pylibssh.Host.{Env, invoke, fail_with, set_error}
use pylibssh.Host.Types.{ObjId}
use pylibssh.Host.Calls.{session_disconnect}
use pylibssh.Handles.{Session}
use pylibssh.Store.Run.{
  Counted, World, ok, pure, ◌>>=◌, ◌>>◌, lift, load, modify, write-same, session_slot,
}
use pylibssh.Store.Sessions.{
  sftps, set_sftps, channels, set_channels, listeners, set_listeners, finish_sftp, finish_channel,
  finish_listener, close_session, close,
}
use pylibssh.Store.Returns.{Returns, returns, mono, chain, bind, drain-Inv}
use pylibssh.Store.Program.{Held, with_ref}
use pylibssh.Store.Program.Counts.{count}
use pylibssh.Store.Client.State.{Refs, Steady, Steady-host, Steady-session, with_items}
use pylibssh.Store.Client.Steps.{drops_listener, finishes_channel}
use pylibssh.Store.Client.Shutting.{count-Perm}
use pylibssh.Store.Client.Sftps.{finishes_sftp}

-- What a set loses, the holder of the reference gains.
moved :
    (x item : ObjId) (xs rest : List ObjId) (r : Held)
    → Perm xs (item ∷ rest)
    → with_ref item r x + count x rest ≡ r x + count x xs
moved x item xs rest r p = ground (arith, count-Perm x xs (item ∷ rest) p)

-- The session object when `Session_close` has emptied its sets.
abbrev pub disconnected : Counted Session → Counted Session
disconnected o = record o {
  body = record o.body { sftps = []; channels = []; listeners = []; opened = false };
}

module _ (env : Env) (sid : ObjId) (o : Counted Session) (refs : Refs) where
  sftps_round :
      (cs ls ids : List ObjId) (item : ObjId) (rest : List ObjId) (w : World)
      → Steady sid (with_items o ids cs ls) refs w
      → Perm ids (item ∷ rest)
      → Returns
          (λ _ w'. Steady sid (with_items o rest cs ls) refs w')
          ((set_sftps sid rest >> finish_sftp item) env w)
  unfolding modify ◌>>◌
  sftps_round cs ls ids item rest w k p = rw k.is_there (
      finishes_sftp env sid (with_items o rest cs ls) item refs _ (
        Steady-session k rest cs ls (with_ref item refs.sftps) refs.channels refs.listeners
          (λ x. moved x item ids rest refs.sftps p) (λ x. refl) λ x. refl))

  channels_round :
      (ls ids : List ObjId) (item : ObjId) (rest : List ObjId) (w : World)
      → Steady sid (with_items o [] ids ls) refs w
      → Perm ids (item ∷ rest)
      → Returns
          (λ _ w'. Steady sid (with_items o [] rest ls) refs w')
          ((set_channels sid rest >> finish_channel item) env w)
  unfolding modify ◌>>◌
  channels_round ls ids item rest w k p = rw k.is_there (
      finishes_channel env sid (with_items o [] rest ls) item refs _ (
        Steady-session k [] rest ls refs.sftps (with_ref item refs.channels) refs.listeners
          (λ x. refl) (λ x. moved x item ids rest refs.channels p) λ x. refl))

  listeners_round :
      (ids : List ObjId) (item : ObjId) (rest : List ObjId) (w : World)
      → Steady sid (with_items o [] [] ids) refs w
      → Perm ids (item ∷ rest)
      → Returns
          (λ _ w'. Steady sid (with_items o [] [] rest) refs w')
          ((set_listeners sid rest >> finish_listener item) env w)
  unfolding modify finish_listener ◌>>◌
  listeners_round ids item rest w k p = rw k.is_there (
      drops_listener env sid (with_items o [] [] rest) item refs _ (
        Steady-session k [] [] rest refs.sftps refs.channels (with_ref item refs.listeners)
          (λ x. refl) (λ x. refl) λ x. moved x item ids rest refs.listeners p))

  sftps_reads :
      (cs ls ids : List ObjId) (w : World)
      → Steady sid (with_items o ids cs ls) refs w
      → sftps sid env w ≡ ok ids w
  unfolding load ◌>>=◌ pure
  sftps_reads cs ls ids w k = rw k.is_there refl

  channels_reads :
      (ls ids : List ObjId) (w : World)
      → Steady sid (with_items o [] ids ls) refs w
      → channels sid env w ≡ ok ids w
  unfolding load ◌>>=◌ pure
  channels_reads ls ids w k = rw k.is_there refl

  listeners_reads :
      (ids : List ObjId) (w : World)
      → Steady sid (with_items o [] [] ids) refs w
      → listeners sid env w ≡ ok ids w
  unfolding load ◌>>=◌ pure
  listeners_reads ids w k = rw k.is_there refl

  disconnects :
      (w : World)
      → Steady sid (with_items o [] [] []) refs w
      → Returns
          (λ _ w'. Steady sid (disconnected o) refs w')
          ((do
            r ← lift (invoke (session_disconnect o.body.session "end"))
            modify session_slot sid λ s. record s { opened = false }
            pure r.rc)
            env w)
  unfolding lift modify pure ◌>>=◌ ◌>>◌
  disconnects w k = rw k.is_there (
      returns (record {
        is_there = write-same w.sessions sid _;
        channels = k.channels;
        listeners = k.listeners;
        sftps = k.sftps;
        handles = k.handles;
        emptied = k.emptied;
      }))

  pub close_session-disconnected :
      (w : World)
      → Steady sid o refs w
      → o.body.opened ≡ true
      → Returns (λ _ w'. Steady sid (disconnected o) refs w') (close_session sid env w)
  unfolding close_session load ◌>>=◌
  close_session-disconnected w k open_ =
      simp (k.is_there, open_)
        (chain env _ _ w
          (drain-Inv env (sftps sid) (set_sftps sid) finish_sftp
            (λ ids. Steady sid (with_items o ids o.body.channels o.body.listeners) refs)
            (sftps_reads o.body.channels o.body.listeners)
            (sftps_round o.body.channels o.body.listeners) o.body.sftps w k)
          λ _ w1 k1.
            chain env _ _ w1
              (drain-Inv env (channels sid) (set_channels sid) finish_channel
                (λ ids. Steady sid (with_items o [] ids o.body.listeners) refs)
                (channels_reads o.body.listeners) (channels_round o.body.listeners) o.body.channels
                w1 k1)
              λ _ w2 k2.
                chain env _ _ w2
                  (drain-Inv env (listeners sid) (set_listeners sid) finish_listener
                    (λ ids. Steady sid (with_items o [] [] ids) refs) listeners_reads
                    listeners_round o.body.listeners w2 k2)
                  λ _ w3 k3. disconnects w3 k3)

  pub close_session-Steady :
      (w : World)
      → Steady sid o refs w
      → Returns (λ _ w'. (o' : Counted Session) × Steady sid o' refs w') (close_session sid env w)
  unfolding close_session load pure ◌>>=◌
  close_session-Steady w k = elim (Bool-cases o.body.opened) [
    | inl open_ ↦ mono (close_session-disconnected w k open_) λ _ w' k'. (_, k')
    | inr shut ↦ simp (k.is_there, shut) (returns (o, k))
  ]

  pub close-Steady :
      (w : World) (args : Option (Option String))
      → Steady sid o refs w
      → Returns (λ _ w'. (o' : Counted Session) × Steady sid o' refs w') (close sid args env w)
  unfolding close lift pure fail_with set_error Host.◌>>◌ Host.pure
  close-Steady w none k = returns (o, Steady-host k _)
  close-Steady w (some reason) k = bind env _ _ w (close_session-Steady w k) λ rc w' (o', k').
      elim (Bool-cases (is_negative rc)) [
        | inl failed ↦ rw failed (returns (o', Steady-host k' _))
        | inr closed ↦ rw closed (returns (o', k'))
      ]
