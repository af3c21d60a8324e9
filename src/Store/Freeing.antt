-- ===== src/Store/Freeing.antt =====
-- What a round of each of the three loops of `Session_close` of src/session.c does.
use mathlib.Core.List.{Mem, Nodup, Perm, perm_append_comm}
use mathlib.Core.List.Perm
use pylibssh.Prelude.{
  ℕ, zero, suc, ◌≡◌, refl, sym, ap, ◌∙◌, subst, some, none, List, [], ◌∷◌, ◌++◌, false, true,
}
use pylibssh.Host.{Env, called}
use pylibssh.Host.Types.{ObjId, Ptr, null_ptr, is_null_ptr}
use pylibssh.Host.Calls.{channel_forward_cancel}
use pylibssh.Handles.{Channel, Listener, Sftp}
use pylibssh.Store.Run.{
  Counted, World, Slot, write-same, ok, pure, ◌>>=◌, ◌>>◌, write, load, lift, modify, destroy,
  channel_slot, listener_slot, sftp_slot,
}
use pylibssh.Host.{invoke}
use pylibssh.Store.Objects.{
  dealloc_channel, cancel_listener, dealloc_listener, free_set, dealloc_sftp,
}
use pylibssh.Store.Sessions.{finish_channel, finish_listener, finish_sftp}
use pylibssh.Store.Channels.{close_channel-open}
use pylibssh.Store.Returns.{Returns, returns, mono, chain}
use pylibssh.Store.Resources.{Resource, channel, listener, sftp, ended, obtained}
use pylibssh.Store.Entries.{
  left_over, Changed, write-Changed, Changed-Changed, release-last, release-kept, release-Given,
}
use pylibssh.Store.Closing.{Holds}
use pylibssh.Store.Shutdown.{handles_of, shutdown_sftp-Ended}

-- One object of a kind changes, and some resources are given back.
pub record Finished {A : Type 0} (slot : Slot A) (item : ObjId) (n : ℕ) (b : A)
    (given : List Resource) (w w' : World) : Type 0 where
  pub gives : ended w'.host.log ≡ given ++ ended w.host.log
  pub gained : obtained w'.host.log ≡ obtained w.host.log
  pub entry : Changed (slot.table w) item (left_over n b) (slot.table w')
  pub only : w' ≡ slot.update (record w { host = w'.host }) (slot.table w')

pub dealloc_channel-closed :
    (env : Env) (w : World) (item : ObjId) (k : Counted Channel)
    → w.channels item ≡ some k
    → is_null_ptr k.body.channel ≡ true
    → dealloc_channel item env w ≡ ok tt (record w { channels = write w.channels item none })
unfolding dealloc_channel load destroy pure ◌>>=◌ ◌>>◌
dealloc_channel-closed env w item k here null = simp (here, null) refl

pub finish_channel-Finished :
    (env : Env) (w : World) (item n : ℕ) (b : Channel)
    → w.channels item ≡ some (record { refs = suc n; body = b })
    → is_null_ptr b.channel ≡ false
    → Returns
        (λ _ w'.
          Finished channel_slot item n
            (record b { channel = null_ptr })
            (channel b.channel ∷ [])
            w
            w')
        (finish_channel item env w)
unfolding finish_channel ◌>>◌
finish_channel-Finished env w item n b here live =
    let closed : Counted Channel = record {
      refs = suc n;
      body = record b { channel = null_ptr };
    } in
    rw (close_channel-open env w item (record { refs = suc n; body = b }) here live) (
      mono
        (release-Given channel_slot env _ item (dealloc_channel item) closed.body n
          (write-same w.channels item (some closed))
          λ t there.
            dealloc_channel-closed env _ item (record { refs = 0; body = closed.body }) there refl)
        λ _ w' g. record {
          gives = ap (λ v. ended v.host.log) g.only;
          gained = ap (λ v. obtained v.host.log) g.only;
          entry =
              subst (λ v. Changed w.channels item (left_over n closed.body) v.channels) (sym g.only)
                (Changed-Changed (write-Changed w.channels item (some closed)) g.changed);
          only =
              subst (λ v. v ≡ record w { host = v.host; channels = v.channels }) (sym g.only) refl;
        })

-- What the last reference to a listener gives back.
abbrev pub cancelled : ℕ → Ptr → List Resource
cancelled zero p = listener p ∷ []
cancelled (suc n) p = []

dealloc_listener-open :
    (env : Env) (w : World) (item : ObjId) (k : Counted Listener)
    → w.listeners item ≡ some k
    → is_null_ptr k.body.listener ≡ false
    → dealloc_listener item env w
      ≡ ok tt (record w {
        host = record w.host {
          log = called env w.host.log (channel_forward_cancel k.body.listener);
        };
        listeners =
            write
              (write w.listeners item
                (some (record k { body = record k.body { listener = null_ptr } })))
              item
              none;
      })
unfolding dealloc_listener cancel_listener load modify lift invoke destroy pure ◌>>=◌ ◌>>◌
dealloc_listener-open env w item k here live = simp (here, live) refl

pub finish_listener-Finished :
    (env : Env) (w : World) (item n : ℕ) (b : Listener)
    → w.listeners item ≡ some (record { refs = suc n; body = b })
    → is_null_ptr b.listener ≡ false
    → Returns
        (λ _ w'. Finished listener_slot item n b (cancelled n b.listener) w w')
        (finish_listener item env w)
unfolding finish_listener
finish_listener-Finished env w item zero b here live =
    let k : Counted Listener = record { refs = 0; body = b } in
    let table = write w.listeners item (some k) in
    rw
      (
        release-last listener_slot env w item (dealloc_listener item) b here,
        dealloc_listener-open env (record w { listeners = table }) item k
            (write-same w.listeners item (some k)) live,
      )
      (returns record {
        gives = refl;
        gained = refl;
        entry =
            Changed-Changed
              (Changed-Changed (write-Changed w.listeners item _) (write-Changed table item _))
              (write-Changed _ item none);
        only = refl;
      })
finish_listener-Finished env w item (suc n) b here live =
    rw (release-kept listener_slot env w item (dealloc_listener item) b n here) (
      returns record {
        gives = refl;
        gained = refl;
        entry = write-Changed w.listeners item _;
        only = refl;
      })

-- An SFTP object that is shut down.
abbrev pub closed_sftp : Sftp → Sftp
closed_sftp s = record s { sftp = null_ptr; directories = []; files = [] }

-- What an SFTP object keeps of libssh2's.
abbrev pub owed_by : (ObjId → Ptr) → Sftp → List Resource
owed_by handle_of s = sftp s.sftp ∷ handles_of handle_of (s.directories ++ s.files)

-- What a round of the loop over the SFTP objects leaves.
pub record SftpFinished (w : World) (item n : ℕ) (s : Sftp) (handle_of : ObjId → Ptr) (w' : World)
    : Type 0 where
  pub gives : Perm (ended w'.host.log) (owed_by handle_of s ++ ended w.host.log)
  pub entry : Changed w.sftps item (left_over n (closed_sftp s)) w'.sftps
  pub others : (x : ObjId) → ¬ Mem x (s.directories ++ s.files) → w'.handles x ≡ w.handles x
  pub sessions : w'.sessions ≡ w.sessions
  pub channels : w'.channels ≡ w.channels
  pub listeners : w'.listeners ≡ w.listeners
  pub next : w'.next ≡ w.next
  pub gained : obtained w'.host.log ≡ obtained w.host.log

dealloc_sftp-closed :
    (env : Env) (w : World) (item refs : ℕ) (s : Sftp)
    → w.sftps item ≡ some (record { refs = refs; body = closed_sftp s })
    → dealloc_sftp item env w ≡ ok tt (record w { sftps = write w.sftps item none })
unfolding dealloc_sftp load free_set destroy pure ◌>>=◌ ◌>>◌
dealloc_sftp-closed env w item refs s here = simp (here) refl

pub finish_sftp-Finished :
    (env : Env) (w : World) (item n : ℕ) (s : Sftp) (handle_of : ObjId → Ptr)
    → w.sftps item ≡ some (record { refs = suc n; body = s })
    → is_null_ptr s.sftp ≡ false
    → Nodup (s.directories ++ s.files)
    → ((x : ObjId) → Mem x (s.directories ++ s.files) → Holds w.handles x (handle_of x))
    → Returns (λ _ w'. SftpFinished w item n s handle_of w') (finish_sftp item env w)
unfolding finish_sftp
finish_sftp-Finished env w item n s handle_of here live distinct held =
    chain env _ _ w (shutdown_sftp-Ended env w item (suc n) s handle_of here live distinct held)
      λ _ w1 e.
        mono
          (release-Given sftp_slot env w1 item (dealloc_sftp item) (closed_sftp s) n e.object.this
            λ t there. dealloc_sftp-closed env (record w1 { sftps = t }) item 0 s there)
          λ _ w' g. record {
            gives =
                subst (λ rs. Perm rs (owed_by handle_of s ++ ended w.host.log))
                  (sym (ap (λ v. ended v.host.log) g.only ∙ ap ended e.ends))
                  (Perm.cons (sftp s.sftp)
                    (Perm.trans e.closes (perm_append_comm (ended w.host.log) _)));
            entry =
                subst (λ t. Changed w.sftps item (left_over n (closed_sftp s)) t)
                  (sym (ap (λ v. v.sftps) g.only)) (Changed-Changed e.object g.changed);
            others = λ x out. ap (λ v. v.handles x) g.only ∙ e.others x out;
            sessions = ap (λ v. v.sessions) g.only ∙ e.sessions;
            channels = ap (λ v. v.channels) g.only ∙ e.channels;
            listeners = ap (λ v. v.listeners) g.only ∙ e.listeners;
            next = ap (λ v. v.next) g.only ∙ e.next;
            gained = ap (λ v. obtained v.host.log) g.only ∙ e.gained;
          }
