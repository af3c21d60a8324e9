-- ===== src/Store/Rounds.antt =====
-- The three loops of `Session_close` of src/session.c.
use mathlib.Core.List.{Mem, Nodup, Perm, flat_map, Nodup-append, mem-append_left, mem-append_right}
use mathlib.Core.List.Perm
use pylibssh.Prelude.{suc, ◌≡◌, refl, sym, ap, ◌∙◌, subst, Option, some, List, [], ◌∷◌, ◌++◌}
use pylibssh.Host.{Env}
use pylibssh.Host.Types.{ObjId, null_ptr}
use pylibssh.Handles.{Session, Channel, Listener, Sftp}
use pylibssh.Store.Run.{Counted, World, write-same, ok, pure, ◌>>=◌, ◌>>◌, load, modify}
use pylibssh.Store.Sets.{drain}
use pylibssh.Store.Sessions.{
  sftps, set_sftps, channels, set_channels, listeners, set_listeners, finish_sftp, finish_channel,
  finish_listener,
}
use pylibssh.Store.Returns.{Returns, mono, drain-Inv}
use pylibssh.Store.Resources.{Resource, ended, obtained, perm-owed, settle, settle-eq, settle-last}
use pylibssh.Store.Entries.{left_over, Kept, Kept-round, Kept-first, Kept-inside}
use pylibssh.Store.Closing.{Holds, Holds-same}
use pylibssh.Store.Freeing.{
  closed_sftp, finish_sftp-Finished, finish_channel-Finished, finish_listener-Finished,
}
use pylibssh.Store.Owning.{Contents, Owns, items, owed, owed_sftp, owed_channel, owed_listener}

-- The entries of the objects when the loops have taken them out.
module _ (c : Contents) where
  abbrev pub sftp_before : ObjId → Option (Counted Sftp)
  sftp_before x = some (record { refs = suc (c.sftp_others x); body = c.sftp_of x })

  abbrev pub sftp_after : ObjId → Option (Counted Sftp)
  sftp_after x = left_over (c.sftp_others x) (closed_sftp (c.sftp_of x))

  abbrev pub channel_before : ObjId → Option (Counted Channel)
  channel_before x = some (record { refs = suc (c.channel_others x); body = c.channel_of x })

  abbrev pub channel_after : ObjId → Option (Counted Channel)
  channel_after x = left_over (c.channel_others x) (record (c.channel_of x) { channel = null_ptr })

  abbrev pub listener_before : ObjId → Option (Counted Listener)
  listener_before x = some (record { refs = suc (c.listener_others x); body = c.listener_of x })

  abbrev pub listener_after : ObjId → Option (Counted Listener)
  listener_after x = left_over (c.listener_others x) (c.listener_of x)

module _ (env : Env) (id : ObjId) (o : Counted Session) (c : Contents) (start : World)
    (owns : Owns c o.body start) (total : List Resource) where
  -- During the loops the sets are these.
  pub record Draining (ss cs ls : List ObjId) (w : World) : Type 0 where
    pub object :
        w.sessions id
        ≡ some (record o { body = record o.body { sftps = ss; channels = cs; listeners = ls } })
    pub sftps_kept : Kept (sftp_before c) (sftp_after c) start.sftps o.body.sftps ss w.sftps
    pub channels_kept :
        Kept (channel_before c) (channel_after c) start.channels o.body.channels cs w.channels
    pub listeners_kept :
        Kept (listener_before c) (listener_after c) start.listeners o.body.listeners ls w.listeners
    pub handles_apart : Nodup (flat_map (items c) ss)
    pub handles_kept :
        (x : ObjId) → Mem x (flat_map (items c) ss) → Holds w.handles x (c.handle_of x)
    pub next : w.next ≡ start.next
    pub gained : obtained w.host.log ≡ obtained start.host.log
    pub adds_up : Perm (ended w.host.log ++ owed c ss cs ls) total

  sftps_round :
      (cs ls ids : List ObjId) (item : ObjId) (rest : List ObjId) (w : World)
      → Draining ids cs ls w
      → Perm ids (item ∷ rest)
      → Returns (λ _ w'. Draining rest cs ls w') ((set_sftps id rest >> finish_sftp item) env w)
  unfolding modify ◌>>◌ flat_map
  sftps_round cs ls ids item rest w d p =
      let q = perm-owed (items c) p in
      let (first, others, different) = Nodup-append.0 (Perm.nodup q d.handles_apart) in
      rw d.object (
        mono
          (finish_sftp-Finished env _ item (c.sftp_others item) (c.sftp_of item) c.handle_of
            (Kept-first d.sftps_kept p) (owns.sftps_open item (Kept-inside d.sftps_kept p)) first
            λ x m. d.handles_kept x ((Perm.mem_iff q).1 (mem-append_left _ m)))
          λ _ w' f. record {
            object = ap (λ t. t id) f.sessions ∙ write-same w.sessions id _;
            sftps_kept = Kept-round d.sftps_kept p f.entry;
            channels_kept =
                subst (Kept (channel_before c) (channel_after c) start.channels o.body.channels cs)
                  (sym f.channels) d.channels_kept;
            listeners_kept =
                subst
                  (Kept (listener_before c) (listener_after c) start.listeners o.body.listeners ls)
                  (sym f.listeners) d.listeners_kept;
            handles_apart = others;
            handles_kept = λ x m.
                Holds-same (f.others x λ also. different x also m)
                  (d.handles_kept x ((Perm.mem_iff q).1 (mem-append_right (items c item) m)));
            next = f.next ∙ d.next;
            gained = f.gained ∙ d.gained;
            adds_up = settle (owed_sftp c) _ _ f.gives p d.adds_up;
          })

  channels_round :
      (ls ids : List ObjId) (item : ObjId) (rest : List ObjId) (w : World)
      → Draining [] ids ls w
      → Perm ids (item ∷ rest)
      → Returns
          (λ _ w'. Draining [] rest ls w')
          ((set_channels id rest >> finish_channel item) env w)
  unfolding modify ◌>>◌ flat_map
  channels_round ls ids item rest w d p = rw d.object (
      mono
        (finish_channel-Finished env _ item (c.channel_others item) (c.channel_of item)
          (Kept-first d.channels_kept p) (owns.channels_open item (Kept-inside d.channels_kept p)))
        λ _ w' f. record {
          object = ap (λ v. v.sessions id) f.only ∙ write-same w.sessions id _;
          sftps_kept =
              subst (Kept (sftp_before c) (sftp_after c) start.sftps o.body.sftps [])
                (sym (ap (λ v. v.sftps) f.only)) d.sftps_kept;
          channels_kept = Kept-round d.channels_kept p f.entry;
          listeners_kept =
              subst
                (Kept (listener_before c) (listener_after c) start.listeners o.body.listeners ls)
                (sym (ap (λ v. v.listeners) f.only)) d.listeners_kept;
          handles_apart = d.handles_apart;
          handles_kept = λ x m. Holds-same (ap (λ v. v.handles x) f.only) (d.handles_kept x m);
          next = ap (λ v. v.next) f.only ∙ d.next;
          gained = f.gained ∙ d.gained;
          adds_up = settle-eq (owed_channel c) _ _ f.gives p d.adds_up;
        })

  listeners_round :
      (ids : List ObjId) (item : ObjId) (rest : List ObjId) (w : World)
      → Draining [] [] ids w
      → Perm ids (item ∷ rest)
      → Returns
          (λ _ w'. Draining [] [] rest w')
          ((set_listeners id rest >> finish_listener item) env w)
  unfolding modify ◌>>◌ flat_map
  listeners_round ids item rest w d p = rw d.object (
      mono
        (finish_listener-Finished env _ item (c.listener_others item) (c.listener_of item)
          (Kept-first d.listeners_kept p)
          (owns.listeners_open item (Kept-inside d.listeners_kept p)))
        λ _ w' f. record {
          object = ap (λ v. v.sessions id) f.only ∙ write-same w.sessions id _;
          sftps_kept =
              subst (Kept (sftp_before c) (sftp_after c) start.sftps o.body.sftps [])
                (sym (ap (λ v. v.sftps) f.only)) d.sftps_kept;
          channels_kept =
              subst (Kept (channel_before c) (channel_after c) start.channels o.body.channels [])
                (sym (ap (λ v. v.channels) f.only)) d.channels_kept;
          listeners_kept = Kept-round d.listeners_kept p f.entry;
          handles_apart = d.handles_apart;
          handles_kept = λ x m. Holds-same (ap (λ v. v.handles x) f.only) (d.handles_kept x m);
          next = ap (λ v. v.next) f.only ∙ d.next;
          gained = f.gained ∙ d.gained;
          adds_up = settle-last (owed_listener c) _ f.gives p d.adds_up;
        })

  sftps_reads :
      (cs ls ids : List ObjId) (w : World) → Draining ids cs ls w → sftps id env w ≡ ok ids w
  unfolding load ◌>>=◌ pure
  sftps_reads cs ls ids w d = rw d.object refl

  channels_reads :
      (ls ids : List ObjId) (w : World) → Draining [] ids ls w → channels id env w ≡ ok ids w
  unfolding load ◌>>=◌ pure
  channels_reads ls ids w d = rw d.object refl

  listeners_reads :
      (ids : List ObjId) (w : World) → Draining [] [] ids w → listeners id env w ≡ ok ids w
  unfolding load ◌>>=◌ pure
  listeners_reads ids w d = rw d.object refl

  pub sftps_drained :
      (ss cs ls : List ObjId) (w : World)
      → Draining ss cs ls w
      → Returns (λ _ w'. Draining [] cs ls w') (drain (sftps id) (set_sftps id) finish_sftp env w)
  sftps_drained ss cs ls =
      drain-Inv env (sftps id) (set_sftps id) finish_sftp (λ ids. Draining ids cs ls)
        (sftps_reads cs ls) (sftps_round cs ls) ss

  pub channels_drained :
      (cs ls : List ObjId) (w : World)
      → Draining [] cs ls w
      → Returns
          (λ _ w'. Draining [] [] ls w')
          (drain (channels id) (set_channels id) finish_channel env w)
  channels_drained cs ls =
      drain-Inv env (channels id) (set_channels id) finish_channel (λ ids. Draining [] ids ls)
        (channels_reads ls) (channels_round ls) cs

  pub listeners_drained :
      (ls : List ObjId) (w : World)
      → Draining [] [] ls w
      → Returns
          (λ _ w'. Draining [] [] [] w')
          (drain (listeners id) (set_listeners id) finish_listener env w)
  listeners_drained =
      drain-Inv env (listeners id) (set_listeners id) finish_listener (Draining [] [])
        listeners_reads listeners_round
