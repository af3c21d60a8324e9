-- ===== src/Store/Client/Steps.antt =====
-- The commands on one object of src/channel.c, src/listener.c, src/sftpfile.c or src/sftpdir.c keep the
-- references as many as there are.
use pylibssh.Prelude.{ℕ, ◌<◌, refl, sym, ap, ◌∙◌, subst, Bool-cases, inl, inr, arith}
use pylibssh.Host.{Env}
use pylibssh.Host.Types.{ObjId, is_null_ptr, null_ptr}
use pylibssh.Handles.{Session}
use pylibssh.Store.Run.{
  Counted, World, ◌>>=◌, ◌>>◌, lift, load, modify, retain, release, channel_slot, listener_slot,
  handle_slot,
}
use pylibssh.Store.Objects.{
  close_channel, dealloc_channel, cancel_listener, dealloc_listener, close_handle, dealloc_handle,
  finish_handle,
}
use pylibssh.Store.Sessions.{finish_channel}
use pylibssh.Store.Returns.{Returns, returns, mono, chain}
use pylibssh.Store.Channels.{close_channel-open, close_channel-null}
use pylibssh.Store.Program.{with_ref}
use pylibssh.Store.Program.Counts.{count, with_ref-same}
use pylibssh.Store.Files.Losses.{HandlesOnly, release-given_up}
use pylibssh.Store.Client.Tally.{Tallied-left_over}
use pylibssh.Store.Client.State.{
  NoChannel, NoListener, Refs, Steady, Steady-channels, Steady-listeners, Steady-handles,
  in_all_sets,
}
use pylibssh.Store.Client.Losses.{
  release-channel, release-listener, Tallied-given_up, one_more, one_less, held_there, rebodied,
  copied,
}

module _ (env : Env) (sid : ObjId) (o : Counted Session) (c : ObjId) (refs : Refs) where
  -- The last use of a reference to a channel object.
  pub drops_channel :
      (w : World)
      → Steady sid o (record refs { channels = with_ref c refs.channels }) w
      → Returns (λ _ w'. Steady sid o refs w') (release channel_slot c (dealloc_channel c) env w)
  drops_channel w k =
      let n : ObjId → ℕ = λ x. count x o.body.channels in
      let (b, here) = one_more c refs.channels n k.channels in
      mono (release-channel env w c _ b here) λ _ w' (only, changed).
        subst (Steady sid o refs) (sym only) (
          Steady-channels k w'.host w'.channels refs.channels (
            one_less c refs.channels n k.channels _ w'.channels changed
              (Tallied-left_over (NoChannel c) _ b)))

  pub drops_listener :
      (w : World)
      → Steady sid o (record refs { listeners = with_ref c refs.listeners }) w
      → Returns (λ _ w'. Steady sid o refs w') (release listener_slot c (dealloc_listener c) env w)
  drops_listener w k =
      let n : ObjId → ℕ = λ x. count x o.body.listeners in
      let (b, here) = one_more c refs.listeners n k.listeners in
      mono (release-listener env w c _ b here) λ _ w' (only, changed).
        subst (Steady sid o refs) (sym only) (
          Steady-listeners k w'.host w'.listeners refs.listeners (
            one_less c refs.listeners n k.listeners _ w'.listeners changed
              (Tallied-left_over (NoListener c) _ b)))

  pub drops_handle :
      (w : World)
      → Steady sid o (record refs { handles = with_ref c refs.handles }) w
      → Returns
          (λ _ w'. Steady sid o refs w' × HandlesOnly w w')
          (release handle_slot c (dealloc_handle c) env w)
  drops_handle w k =
      let n : ObjId → ℕ = in_all_sets w.sftps w.next in
      let (b, here) = one_more c refs.handles n k.handles in
      mono (release-given_up env w c _ b here (omega arith)) λ _ w' (only, changed). (
        subst (Steady sid o refs) (sym only) (
            Steady-handles k w'.host w'.handles refs.handles
              (one_less c refs.handles n k.handles _ w'.handles changed (Tallied-given_up _ c b))),
        only,
      )

  module _ (w : World) (k : Steady sid o refs w) where
    pub copies_channel :
        0 < refs.channels c
        → Returns
            (λ _ w'. Steady sid o (record refs { channels = with_ref c refs.channels }) w')
            (retain channel_slot c env w)
    unfolding retain
    copies_channel has =
        let n : ObjId → ℕ = λ x. count x o.body.channels in
        let (b, here) = held_there c refs.channels n k.channels has in
        rw here (returns (Steady-channels k w.host _ _ (copied c refs.channels n k.channels has b)))

    pub copies_listener :
        0 < refs.listeners c
        → Returns
            (λ _ w'. Steady sid o (record refs { listeners = with_ref c refs.listeners }) w')
            (retain listener_slot c env w)
    unfolding retain
    copies_listener has =
        let n : ObjId → ℕ = λ x. count x o.body.listeners in
        let (b, here) = held_there c refs.listeners n k.listeners has in
        rw here
          (returns (Steady-listeners k w.host _ _ (copied c refs.listeners n k.listeners has b)))

    pub copies_handle :
        0 < refs.handles c
        → Returns
            (λ _ w'. Steady sid o (record refs { handles = with_ref c refs.handles }) w')
            (retain handle_slot c env w)
    unfolding retain
    copies_handle has =
        let n : ObjId → ℕ = in_all_sets w.sftps w.next in
        let (b, here) = held_there c refs.handles n k.handles has in
        rw here (returns (Steady-handles k w.host _ _ (copied c refs.handles n k.handles has b)))

    pub closes_channel :
        0 < refs.channels c → Returns (λ _ w'. Steady sid o refs w') (close_channel c env w)
    closes_channel has =
        let n : ObjId → ℕ = λ x. count x o.body.channels in
        let (b, here) = held_there c refs.channels n k.channels has in
        elim (Bool-cases (is_null_ptr b.channel)) [
          | inl null ↦ rw (close_channel-null env w c _ here null) (returns k)
          | inr live ↦ rw (close_channel-open env w c _ here live) (
              returns (
                Steady-channels k _ _ _
                  (rebodied c refs.channels n k.channels has (record b { channel = null_ptr }))))
        ]

    pub cancels_listener :
        0 < refs.listeners c → Returns (λ _ w'. Steady sid o refs w') (cancel_listener c env w)
    unfolding cancel_listener load modify lift ◌>>=◌ ◌>>◌
    cancels_listener has =
        let n : ObjId → ℕ = λ x. count x o.body.listeners in
        let (b, here) = held_there c refs.listeners n k.listeners has in
        simp (here, modify)
          (returns (
            Steady-listeners k _ _ _
              (rebodied c refs.listeners n k.listeners has (record b { listener = null_ptr }))))

    pub closes_handle :
        0 < refs.handles c
        → Returns (λ _ w'. Steady sid o refs w' × HandlesOnly w w') (close_handle c env w)
    unfolding close_handle load modify lift ◌>>=◌ ◌>>◌
    closes_handle has =
        let n : ObjId → ℕ = in_all_sets w.sftps w.next in
        let (b, here) = held_there c refs.handles n k.handles has in
        simp (here, modify)
          (returns (
            Steady-handles k _ _ _
                (rebodied c refs.handles n k.handles has (record b { handle = null_ptr })),
            refl,
          ))

HandlesOnly-HandlesOnly :
    (w w1 w2 : World) → HandlesOnly w w1 → HandlesOnly w1 w2 → HandlesOnly w w2
HandlesOnly-HandlesOnly w w1 w2 first second =
    second
    ∙ ap {A = World} {B = World} (λ v. record v { host = w2.host; handles = w2.handles }) first

-- The bodies of the loops over channels, and over files or directories.
module _ (env : Env) (sid : ObjId) (o : Counted Session) (c : ObjId) (refs : Refs) (w : World) where
  pub finishes_channel :
      Steady sid o (record refs { channels = with_ref c refs.channels }) w
      → Returns (λ _ w'. Steady sid o refs w') (finish_channel c env w)
  unfolding finish_channel
  finishes_channel k =
      chain env _ _ w
        (closes_channel env sid o c _ w k (omega (arith, with_ref-same c refs.channels)))
        λ _ w1 k1. drops_channel env sid o c refs w1 k1

  pub finishes_handle :
      Steady sid o (record refs { handles = with_ref c refs.handles }) w
      → Returns (λ _ w'. Steady sid o refs w' × HandlesOnly w w') (finish_handle c env w)
  unfolding finish_handle
  finishes_handle k =
      chain env _ _ w
        (closes_handle env sid o c _ w k (omega (arith, with_ref-same c refs.handles)))
        λ _ w1 (k1, first).
          mono (drops_handle env sid o c refs w1 k1)
            λ _ w2 (k2, second). (k2, HandlesOnly-HandlesOnly w w1 w2 first second)
