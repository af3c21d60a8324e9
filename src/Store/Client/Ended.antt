-- ===== src/Store/Client/Ended.antt =====
-- The end of a program with all objects of a session: `PYLIBSSH2_Session_dealloc` of src/session.c.
use mathlib.Core.Option.{some-injective}
use pylibssh.Prelude.{
  ℕ, zero, suc, ◌≡◌, refl, ap, ◌∙◌, sym, subst, true, false, Option, none, some, [], is_some, ltb,
  arith,
}
use pylibssh.Host.{Env, invoke}
use pylibssh.Host.Calls.{session_free}
use pylibssh.Host.Types.{ObjId, is_null_ptr, null_ptr}
use pylibssh.Handles.{Session, Sftp}
use pylibssh.Store.Run.{
  Counted, World, Cmd, pure, ◌>>=◌, ◌>>◌, lift, load, modify, destroy, write-same, session_slot,
  sftp_slot, channel_slot, listener_slot, release,
}
use pylibssh.Store.Objects.{free_set, dealloc_sftp, dealloc_channel, dealloc_listener}
use pylibssh.Store.Sessions.{close_session, dealloc_session}
use pylibssh.Store.Returns.{Returns, returns, chain}
use pylibssh.Store.Files.Counts.{closed, in_sets}
use pylibssh.Store.Program.{Held}
use pylibssh.Store.Client.{Client, Arrives}
use pylibssh.Store.Client.Tally.{total}
use pylibssh.Store.Client.State.{Refs, with_lost, Steady, in_all_sets, with_items}
use pylibssh.Store.Client.Closing.{disconnected, close_session-disconnected}
use pylibssh.Store.Client.Discarding.{StillSteady}
use pylibssh.Store.Client.Served.{Arrives-StillSteady}
use pylibssh.Store.Client.Present.{present, present_or_closed}

-- The program has no reference to any object but the session.
pub record NoRefs (refs : Refs) : Type 0 where
  pub channels : (x : ObjId) → refs.channels x ≡ 0
  pub listeners : (x : ObjId) → refs.listeners x ≡ 0
  pub sftps : (x : ObjId) → refs.sftps x ≡ 0
  pub handles : (x : ObjId) → refs.handles x ≡ 0
  pub ending : (x : ObjId) → refs.ending x ≡ false

-- The session object is not in memory, nor is the object of this number, but if it is a channel to which
-- a reference is lost, or a closed file or directory.
abbrev pub IsCleared : ObjId → Held → ObjId → World → Type 0
IsCleared sid lost x w =
    (is_some (w.sessions sid) ≡ false)
    × (is_some (w.channels x) ≡ ltb 0 (lost x))
    × (is_some (w.listeners x) ≡ false)
    × (is_some (w.sftps x) ≡ false)
    × (is_some (w.handles x) ≡ closed (w.handles x))

total-zero : (f : ObjId → ℕ) (n : ObjId) → ((y : ObjId) → f y ≡ 0) → total f n ≡ 0
total-zero f zero zeros = refl
total-zero f (suc n) zeros = omega (arith, zeros n, total-zero f n zeros)

gone-in_sets : (x : ObjId) (e : Option (Counted Sftp)) → is_some e ≡ false → in_sets x e ≡ 0
gone-in_sets x none gone = refl
gone-in_sets x (some s) gone = absurd (ground (arith, gone))

module _ (sid : ObjId) (o : Counted Session) (refs : Refs) (lost : Held) (nothing : NoRefs refs)
    (w : World) (k : Steady sid (with_items o [] [] []) (with_lost refs lost) w) where
  sftp_gone : (x : ObjId) → is_some (w.sftps x) ≡ false
  sftp_gone x =
      present _ _ (w.sftps x) (λ b e. ground (arith, e, nothing.ending x)) (k.sftps.entries x)
      ∙ ground (arith, nothing.sftps x)

  cleared :
      (x : ObjId)
      → (is_some (w.channels x) ≡ ltb 0 (lost x))
        × (is_some (w.listeners x) ≡ false)
        × (is_some (w.sftps x) ≡ false)
        × (is_some (w.handles x) ≡ closed (w.handles x))
  cleared x =
      let none_kept : in_all_sets w.sftps w.next x ≡ 0 =
        total-zero _ w.next λ y. gone-in_sets x (w.sftps y) (sftp_gone y) in
      (
        present _ _ (w.channels x) (λ b e. e) (k.channels.entries x)
            ∙ ground (arith, nothing.channels x),
        present _ _ (w.listeners x) (λ b e. e) (k.listeners.entries x)
            ∙ ground (arith, nothing.listeners x),
        sftp_gone x,
        present_or_closed x _ (w.handles x) (k.handles.entries x)
            ∙ ground (arith, nothing.handles x, none_kept),
      )

-- The session object when its pointer has been freed.
abbrev freed : Counted Session → Counted Session
freed o = record o { body = record o.body { session = null_ptr; socket = none; opened = false } }

module _ (env : Env) (sid : ObjId) (o : Counted Session) (refs : Refs) (lost : Held) where
  abbrev frees_pointer : Cmd (Unit {0})
  frees_pointer = do
    lift (invoke (session_free o.body.session))
    modify session_slot sid λ s. record s { session = null_ptr; socket = none }

  abbrev frees_rest : Cmd (Unit {0})
  frees_rest = do
    left ← load session_slot sid
    free_set (λ item. release sftp_slot item (dealloc_sftp item)) left.sftps
    free_set (λ item. release channel_slot item (dealloc_channel item)) left.channels
    free_set (λ item. release listener_slot item (dealloc_listener item)) left.listeners
    destroy session_slot sid

  frees :
      (w : World)
      → Steady sid (disconnected o) (with_lost refs lost) w
      → Returns
          (λ _ w'. Steady sid (with_items (freed o) [] [] []) (with_lost refs lost) w')
          (frees_pointer env w)
  unfolding lift modify ◌>>◌
  frees w k = rw k.is_there (
      returns (record {
        is_there = write-same w.sessions sid _;
        channels = k.channels;
        listeners = k.listeners;
        sftps = k.sftps;
        handles = k.handles;
        emptied = k.emptied;
      }))

  closes_and_frees :
      (w : World)
      → Steady sid o (with_lost refs lost) w
      → o.body.opened ≡ true
      → Returns
          (λ _ w'. Steady sid (with_items (freed o) [] [] []) (with_lost refs lost) w')
          (((close_session sid >> pure tt) >> frees_pointer) env w)
  unfolding pure
  closes_and_frees w k open_ =
      chain env (close_session sid >> pure tt) frees_pointer w
        (chain env (close_session sid) (pure tt) w
          (close_session-disconnected env sid o (with_lost refs lost) w k open_)
          λ _ w1 k1. returns k1)
        λ _ w1 k1. frees w1 k1

  ends :
      (w : World) (x : ObjId)
      → NoRefs refs
      → Steady sid (with_items (freed o) [] [] []) (with_lost refs lost) w
      → Returns (λ _ w'. IsCleared sid lost x w') (frees_rest env w)
  unfolding load destroy free_set pure ◌>>=◌ ◌>>◌
  ends w x nothing k =
      let (no_channel, no_listener, no_sftp, only_closed) =
        cleared sid (freed o) refs lost nothing w k x in
      rw k.is_there (
        returns (
          ap is_some (write-same w.sessions sid none),
          no_channel,
          no_listener,
          no_sftp,
          only_closed,
        ))

  dealloc_session-IsCleared :
      (w : World) (x : ObjId)
      → NoRefs refs
      → Steady sid o (with_lost refs lost) w
      → is_null_ptr o.body.session ≡ false
      → o.body.opened ≡ true
      → Returns (λ _ w'. IsCleared sid lost x w') (dealloc_session sid env w)
  unfolding dealloc_session load pure ◌>>=◌ ◌>>◌
  dealloc_session-IsCleared w x nothing k live open_ =
      simp (k.is_there, live, open_)
        (chain env ((close_session sid >> pure tt) >> frees_pointer) frees_rest w
          (closes_and_frees w k open_) λ _ w2 k2. ends w2 x nothing k2)

-- A program begins as for `serve-safe`. In every state that it gets to, as there, and in which it
-- has no reference to any object but the session, no SFTP object is in its `tp_dealloc`, and the
-- session is open and its pointer is not NULL, `PYLIBSSH2_Session_dealloc` returns, without a use of
-- freed memory, whatever libssh2 answers and in whatever order the sets give their elements. Then
-- the session object is not in memory any more, nor is any listener or SFTP object; of files and
-- directories only closed ones are, and of channels those and only those to which a reference is
-- lost, as by `scp_recv`.
pub Arrives-dealloc_session :
    (env : Env) (sid : ObjId) (s t : Client) (o : Counted Session) (x : ObjId)
    → StillSteady sid (with_lost s.refs s.lost) s.world
    → Arrives env sid s t
    → NoRefs t.refs
    → t.world.sessions sid ≡ some o
    → is_null_ptr o.body.session ≡ false
    → o.body.opened ≡ true
    → Returns (λ _ w'. IsCleared sid t.lost x w') (dealloc_session sid env t.world)
Arrives-dealloc_session env sid s t o x k arrived nothing here live open_ =
    let (o', k') = Arrives-StillSteady env sid s k arrived in
    let same = some-injective _ _ (sym k'.is_there ∙ here) in
    dealloc_session-IsCleared env sid o t.refs t.lost t.world x nothing
      (subst (λ p. Steady sid p (with_lost t.refs t.lost) t.world) same k') live open_
