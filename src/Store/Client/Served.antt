-- ===== src/Store/Client/Served.antt =====
-- What holds in every state that a program with all objects of a session can get to.
use pylibssh.Prelude.{◌<◌, ◌≡◌, ◌==◌, refl, sym, subst, Bool-cases, inl, inr, arith, ==_iff}
use pylibssh.Host.{Env, Io}
use pylibssh.Host.Types.{ObjId, Value}
use pylibssh.Dir
use pylibssh.Handles.{Session, Channel, Sftp, Handle}
use pylibssh.Channel.Table.{run_channel}
use pylibssh.File.Table.{run_file}
use pylibssh.Sftp.Table.{run_sftp}
use pylibssh.Store.Run.{
  Counted, World, Run, ok, pure, ◌>>=◌, lift, load, channel_slot, sftp_slot, handle_slot,
}
use pylibssh.Store.Returns.{Returns, returns, mono, chain}
use pylibssh.Store.Program.{Held, gain, with_ref, without_ref}
use pylibssh.Store.Program.Counts.{count}
use pylibssh.Store.Client.{
  Sort, Request, copy_ref, drop_ref, serve, copied_ref, dropped_ref, refs_after, lost_after,
  gain_pair, gain_twice, Has, Permitted, Client, Arrives,
}
use pylibssh.Store.Client.Lost.{gain-lost, gain_pair-lost, with_ref-lost, without_ref-lost}
use pylibssh.Store.Client.State.{Refs, with_lost, Steady, Steady-host, Steady-refs, in_all_sets}
use pylibssh.Store.Client.Losses.{held_there}
use pylibssh.Store.Client.Steps.{
  drops_channel, drops_listener, drops_handle, copies_channel, copies_listener, copies_handle,
}
use pylibssh.Store.Client.Sftps.{drops_sftp, copies_sftp}
use pylibssh.Store.Client.Closing.{close-Steady}
use pylibssh.Store.Client.Discarding.{
  StillSteady, channel_close-Steady, sftp_shutdown-Steady, forward_cancel-Steady, close_dir-Steady,
  close_file-Steady,
}
use pylibssh.Store.Client.Opens.{
  open_session-Steady, send-Steady, init_sftp-Steady, forward_listen-Steady, accept-Steady,
}
use pylibssh.Store.Client.Receiving.{recv-Steady, startup-Steady}
use pylibssh.Store.Client.Openings.{open_dir-Steady, open_file-Steady}

with_ref-without_ref :
    (c : ObjId) (r : Held) (x : ObjId) → 0 < r c → with_ref c (without_ref c r) x ≡ r x
with_ref-without_ref c r x has = elim (Bool-cases (x == c)) [
  | inl same ↦
      subst (λ y. with_ref c (without_ref c r) y ≡ r y) (sym ((==_iff x c).0 same))
        (ground (arith, has))
  | inr differ ↦ ground (arith, differ)
]

module _ (env : Env) (sid : ObjId) (o : Counted Session) (refs : Refs) (lost : Held) (w : World)
    (k : Steady sid o (with_lost refs lost) w) where
  copy_ref-Steady :
      (t : Sort) (x : ObjId)
      → Has t x refs
      → Returns
          (λ _ w'. Steady sid o (with_lost (copied_ref t x refs) lost) w')
          (copy_ref t x env w)
  copy_ref-Steady Sort.a_channel x has =
      mono (copies_channel env sid o x _ w k (omega (arith, has))) λ _ w' k'.
        Steady-refs k' _ (with_ref-lost x refs.channels lost) (λ y. refl) (λ y. refl) (λ y. refl)
          refl
  copy_ref-Steady Sort.a_listener x has = copies_listener env sid o x _ w k has
  copy_ref-Steady Sort.an_sftp x has = copies_sftp env sid o x _ w k has
  copy_ref-Steady Sort.a_handle x has = copies_handle env sid o x _ w k has

  drop_ref-Steady :
      (t : Sort) (x : ObjId)
      → Has t x refs
      → Returns
          (λ _ w'. Steady sid o (with_lost (dropped_ref t x refs) lost) w')
          (drop_ref t x env w)
  drop_ref-Steady Sort.a_channel x has =
      drops_channel env sid o x (with_lost (dropped_ref Sort.a_channel x refs) lost) w (
        Steady-refs k _ (λ y. without_ref-lost x refs.channels lost y has) (λ y. refl) (λ y. refl)
          (λ y. refl) refl)
  drop_ref-Steady Sort.a_listener x has =
      drops_listener env sid o x (with_lost (dropped_ref Sort.a_listener x refs) lost) w (
        Steady-refs k _ (λ y. refl) (λ y. with_ref-without_ref x refs.listeners y has) (λ y. refl)
          (λ y. refl) refl)
  drop_ref-Steady Sort.an_sftp x has =
      drops_sftp env sid o x (with_lost (dropped_ref Sort.an_sftp x refs) lost) w (
        Steady-refs k _ (λ y. refl) (λ y. refl) (λ y. with_ref-without_ref x refs.sftps y has)
          (λ y. refl) refl)
  drop_ref-Steady Sort.a_handle x has =
      mono
        (drops_handle env sid o x (with_lost (dropped_ref Sort.a_handle x refs) lost) w (
          Steady-refs k _ (λ y. refl) (λ y. refl) (λ y. refl)
            (λ y. with_ref-without_ref x refs.handles y has) refl))
        λ _ w' (k', only). k'

  -- Methods that read an object and change none.
  reads_channel :
      (m : Channel → Io Value) (c : ObjId)
      → 0 < refs.channels c
      → Returns
          (λ _ w'. StillSteady sid (with_lost refs lost) w')
          ((load channel_slot c >>= λ self. lift (m self)) env w)
  unfolding load lift ◌>>=◌
  reads_channel m c has =
      let (b, here) =
        held_there c (with_lost refs lost).channels (λ x. count x o.body.channels) k.channels
          (omega (arith, has)) in
      rw here (returns (o, Steady-host k _))

  reads_sftp :
      (m : Sftp → Io Value) (c : ObjId)
      → 0 < refs.sftps c
      → Returns
          (λ _ w'. StillSteady sid (with_lost refs lost) w')
          ((load sftp_slot c >>= λ self. lift (m self)) env w)
  unfolding load lift ◌>>=◌
  reads_sftp m c has =
      let (b, here) = held_there c refs.sftps (λ x. count x o.body.sftps) k.sftps has in
      rw here (returns (o, Steady-host k _))

  reads_handle :
      (m : Handle → Io Value) (c : ObjId)
      → 0 < refs.handles c
      → Returns
          (λ _ w'. StillSteady sid (with_lost refs lost) w')
          ((load handle_slot c >>= λ self. lift (m self)) env w)
  unfolding load lift ◌>>=◌
  reads_handle m c has =
      let (b, here) = held_there c refs.handles (in_all_sets w.sftps w.next) k.handles has in
      rw here (returns (o, Steady-host k _))

  -- The session object stays the same.
  stays :
      {refs_of : Value → Refs} {r : Run Value}
      → Returns (λ v w'. Steady sid o (refs_of v) w') r
      → Returns (λ v w'. StillSteady sid (refs_of v) w') r
  stays kept = mono kept λ v w' k'. (o, k')

  -- The program gains a channel.
  gains :
      {r : Run Value}
      → Returns
          (λ v w'.
            StillSteady sid
              (record (with_lost refs lost) { channels = gain v (with_lost refs lost).channels })
              w')
          r
      → Returns
          (λ v w'.
            StillSteady sid (with_lost (record refs { channels = gain v refs.channels }) lost) w')
          r
  gains kept = mono kept λ v w' (o', k'). (
    o',
    Steady-refs k' _ (gain-lost v refs.channels lost) (λ y. refl) (λ y. refl) (λ y. refl) refl,
  )

  gains_pair :
      {r : Run Value}
      → Returns
          (λ v w'.
            StillSteady sid
              (record (with_lost refs lost) {
                channels = gain_twice v (with_lost refs lost).channels;
              })
              w')
          r
      → Returns
          (λ v w'.
            StillSteady sid
              (with_lost (record refs { channels = gain_pair v refs.channels }) (gain_pair v lost))
              w')
          r
  gains_pair kept = mono kept λ v w' (o', k'). (
    o',
    Steady-refs k' _ (gain_pair-lost v refs.channels lost) (λ y. refl) (λ y. refl) (λ y. refl) refl,
  )

  serve-Steady :
      (q : Request)
      → Permitted q refs
      → Returns
          (λ v w'. StillSteady sid (with_lost (refs_after q v refs) (lost_after q v lost)) w')
          (serve sid q env w)
  unfolding serve load lift pure ◌>>=◌
  serve-Steady (Request.startup args) may = startup-Steady env sid o _ w args k
  serve-Steady (Request.on_session m) may = rw k.is_there (returns (o, Steady-host k _))
  serve-Steady Request.open_session may = gains (open_session-Steady env sid o _ w k)
  serve-Steady Request.sftp_init may = init_sftp-Steady env sid o _ w k
  serve-Steady (Request.scp_recv args) may = gains_pair (recv-Steady env sid o _ w args k)
  serve-Steady (Request.scp_send args) may = gains (send-Steady env sid o _ w args k)
  serve-Steady (Request.forward_listen args) may = forward_listen-Steady env sid o _ w args k may
  serve-Steady (Request.close args) may = close-Steady env sid o _ w args k
  serve-Steady (Request.channel_close c) may =
      channel_close-Steady env sid o c _ w k (omega (arith, may))
  serve-Steady (Request.sftp_shutdown s) may = sftp_shutdown-Steady env sid o s _ w k may
  serve-Steady (Request.forward_cancel l) may = forward_cancel-Steady env sid o l _ w k may
  serve-Steady (Request.accept l) may = gains (accept-Steady env sid o _ w l k may)
  serve-Steady (Request.read_dir h) may = reads_handle Dir.read h may
  serve-Steady (Request.on_channel m c) may = reads_channel (run_channel m) c may
  serve-Steady (Request.on_sftp m s) may = reads_sftp (run_sftp m) s may
  serve-Steady (Request.on_file m h) may = reads_handle (run_file m) h may
  serve-Steady (Request.open_dir args s) may = stays (open_dir-Steady env sid o _ s w k may args)
  serve-Steady (Request.open_file args s) may = stays (open_file-Steady env sid o _ s w k may args)
  serve-Steady (Request.close_dir s h) may =
      stays (close_dir-Steady env sid o s h _ w k may.0 may.1)
  serve-Steady (Request.close_file s h) may =
      stays (close_file-Steady env sid o s h _ w k may.0 may.1)
  serve-Steady (Request.copy t x) may =
      chain env _ _ w (copy_ref-Steady t x may) λ _ w' k'. returns (o, k')
  serve-Steady (Request.drop t x) may =
      chain env _ _ w (drop_ref-Steady t x may) λ _ w' k'. returns (o, k')

served : {A : Type 0} {P : A → World → Type 0} {a : A} {w : World} → Returns P (ok a w) → P a w
served (returns p) = p

module _ (env : Env) (sid : ObjId) (s : Client)
    (k : StillSteady sid (with_lost s.refs s.lost) s.world) where
  pub Arrives-StillSteady :
      {t : Client} → Arrives env sid s t → StillSteady sid (with_lost t.refs t.lost) t.world
  Arrives-StillSteady Arrives.here = k
  Arrives-StillSteady (Arrives.serves {t} {v} {w} q before may runs) = served (
      subst
        (Returns (λ v' w'.
          StillSteady sid (with_lost (refs_after q v' t.refs) (lost_after q v' t.lost)) w'))
        runs
        (let (o, k') = Arrives-StillSteady before in
          serve-Steady env sid o t.refs t.lost t.world k' q may))

-- A program begins with a session object; each channel, listener, SFTP, file and directory object
-- has as many references as the program and the sets of the session and of SFTP objects have to it
-- and, for a channel, as are lost; of those in memory only closed files and directories, and SFTP
-- objects that are in their `tp_dealloc`, have none, SFTP objects that are shut down have empty
-- sets, and the numbers of new objects are free. A reference is lost whenever `scp_recv` returns a
-- channel. Then in every state that the program gets to by the methods of all these objects, but for
-- `userauth_agent`, `callback_set`, `direct_tcpip` and `list_files`, and by copying and dropping its
-- references, while `forward_listen` gets NULL for its port, each of these requests on objects that
-- it still has a reference to returns, without a use of freed memory or a write to nowhere, whatever
-- libssh2 answers and in whatever order the sets give their elements, and the same holds again with
-- the references that the program then has and those that are then lost.
pub serve-safe :
    (env : Env) (sid : ObjId) (s t : Client) (q : Request)
    → StillSteady sid (with_lost s.refs s.lost) s.world
    → Arrives env sid s t
    → Permitted q t.refs
    → Returns
        (λ v w'. StillSteady sid (with_lost (refs_after q v t.refs) (lost_after q v t.lost)) w')
        (serve sid q env t.world)
serve-safe env sid s t q k arrived may =
    let (o, k') = Arrives-StillSteady env sid s k arrived in
    serve-Steady env sid o t.refs t.lost t.world k' q may
