-- ===== src/Types/Freed.antt =====
-- When the last reference to an object is given back.
use mathlib.Core.List.{Mem, Nodup}
use pylibssh.Prelude.{ℕ, ==_iff, ◌≡◌, refl, false, true, some, none, ◌++◌, Bool-cases, inl, inr}
use pylibssh.Host.{Env}
use pylibssh.Host.Types.{ObjId, Ptr, is_null_ptr}
use pylibssh.Handles.{Sftp, Handle, Listener}
use pylibssh.Init.{TypeName}
use pylibssh.Types.{
  Body, slot_of, decref, session_type, channel_type, sftp_type, sftpfile_type, sftpdir_type,
  listener_type,
}
use pylibssh.Store.Run.{
  World, pure, ◌>>=◌, ◌>>◌, lift, load, modify, destroy, write, write-same, release, session_slot,
  channel_slot, listener_slot, sftp_slot, handle_slot,
}
use pylibssh.Store.Sessions.{dealloc_session}
use pylibssh.Store.Channels.{close_channel-open}
use pylibssh.Store.Objects.{
  dealloc_channel, dealloc_handle, shutdown_sftp, dealloc_sftp, dealloc_listener, cancel_listener,
  free_set,
}
use pylibssh.Store.Returns.{Returns, returns, mono, chain}
use pylibssh.Store.Entries.{release-last}
use pylibssh.Store.Closing.{Holds}
use pylibssh.Store.Shutdown.{shutdown_sftp-Ended}
use pylibssh.Store.Freeing.{closed_sftp}
use pylibssh.Store.Owning.{Contents, Owns}
use pylibssh.Store.Dealloc.{dealloc_session-Gone}
use pylibssh.Host.{invoke}

-- An object whose parts are there: a session and an SFTP object that are open, with all that they
-- keep, and a file or a directory whose handle is open.
abbrev pub IsWhole : (t : TypeName) → World → Body t → Type 0
IsWhole TypeName.session w b =
    (c : Contents) × (is_null_ptr b.session ≡ false) × (b.opened ≡ true) × Owns c b w
IsWhole TypeName.sftp w b =
    (handle_of : (ObjId → Ptr)) × (is_null_ptr b.sftp ≡ false)
    × Nodup (b.directories ++ b.files)
    × ((x : ObjId) → Mem x (b.directories ++ b.files) → Holds w.handles x (handle_of x))
IsWhole TypeName.sftpfile w b = is_null_ptr b.handle ≡ false
IsWhole TypeName.sftpdir w b = is_null_ptr b.handle ≡ false
IsWhole t w b = Unit {0}

-- The object is not in memory.
abbrev pub IsGone : TypeName → ObjId → World → Type 0
IsGone t id w = (slot_of t).table w id ≡ none

module _ (env : Env) (w : World) (id : ObjId) where
  freed_channel :
      (refs : ℕ) (b : Body TypeName.channel)
      → w.channels id ≡ some (record { refs = refs; body = b })
      → Returns (λ _ w'. IsGone TypeName.channel id w') (dealloc_channel id env w)
  unfolding dealloc_channel load destroy pure ◌>>=◌ ◌>>◌
  freed_channel refs b here = elim (Bool-cases (is_null_ptr b.channel)) [
    | inl null ↦ simp (here, null) (returns (write-same w.channels id none))
    | inr live ↦
        simp (here, live, close_channel-open env w id (record { refs = refs; body = b }) here live)
          (returns (rw ((==_iff id id).1 refl) refl))
  ]

  freed_listener :
      (refs : ℕ) (b : Listener)
      → w.listeners id ≡ some (record { refs = refs; body = b })
      → Returns (λ _ w'. IsGone TypeName.listener id w') (dealloc_listener id env w)
  unfolding dealloc_listener cancel_listener load modify lift invoke destroy pure ◌>>=◌ ◌>>◌
  freed_listener refs b here = elim (Bool-cases (is_null_ptr b.listener)) [
    | inl null ↦ simp (here, null, modify) (returns (write-same w.listeners id none))
    | inr live ↦ simp (here, live, modify) (returns (rw ((==_iff id id).1 refl) refl))
  ]

  freed_handle :
      (refs : ℕ) (b : Handle)
      → w.handles id ≡ some (record { refs = refs; body = b })
      → is_null_ptr b.handle ≡ false
      → Returns (λ _ w'. w'.handles id ≡ none) (dealloc_handle id env w)
  unfolding dealloc_handle load modify lift invoke destroy pure ◌>>=◌ ◌>>◌
  freed_handle refs b here live =
      simp (here, live, modify) (returns (rw ((==_iff id id).1 refl) refl))

  -- The sets are empty, and then the memory is given back.
  freed_rest :
      (refs : ℕ) (b : Sftp)
      → w.sftps id ≡ some (record { refs = refs; body = closed_sftp b })
      → Returns
          (λ _ w'. IsGone TypeName.sftp id w')
          ((load sftp_slot id >>= λ left.
              free_set (λ item. release handle_slot item (dealloc_handle item)) left.directories
              >> (free_set (λ item. release handle_slot item (dealloc_handle item)) left.files
                  >> destroy sftp_slot id))
            env w)
  unfolding load free_set destroy pure ◌>>=◌ ◌>>◌
  freed_rest refs b here = rw here (returns (write-same w.sftps id none))

freed_sftp :
    (env : Env) (w : World) (id refs : ℕ) (b : Sftp)
    → w.sftps id ≡ some (record { refs = refs; body = b })
    → IsWhole TypeName.sftp w b
    → Returns (λ _ w'. IsGone TypeName.sftp id w') (dealloc_sftp id env w)
unfolding dealloc_sftp load ◌>>=◌
freed_sftp env w id refs b here (handle_of, live, distinct, held) =
    rw (here, live)
      (chain env (shutdown_sftp id) _ w
        (shutdown_sftp-Ended env w id refs b handle_of here live distinct held)
        λ _ w' e. freed_rest env w' id refs b e.object.this)

-- `Py_DECREF` of an object to which there is one reference, whatever its type, where a session and
-- an SFTP object are open and the objects that they keep are there, different and, but for
-- listeners, open, and the handle of a file or directory is open: it returns, without a use of freed
-- memory, whatever libssh2 answers, and the object is not in memory any more.
pub decref-IsGone :
    (env : Env) (t : TypeName) (w : World) (id : ObjId) (b : Body t)
    → (slot_of t).table w id ≡ some (record { refs = 1; body = b })
    → IsWhole t w b
    → Returns (λ _ w'. IsGone t id w') (decref t id env w)
unfolding session_type channel_type sftp_type sftpfile_type sftpdir_type listener_type
decref-IsGone env TypeName.session w id b here (c, live, opened, owns) =
    rw (release-last session_slot env w id (dealloc_session id) b here) (
      mono
        (dealloc_session-Gone env _ id (record { refs = 0; body = b }) c
          (write-same w.sessions id _) live opened (again owns))
        λ _ w' g. g.object)
  where
    again :
        Owns c b w
        → Owns c b
            (record w { sessions = write w.sessions id (some (record { refs = 0; body = b })) })
    again o = record {
      sftps_distinct = o.sftps_distinct;
      handles_distinct = o.handles_distinct;
      channels_distinct = o.channels_distinct;
      listeners_distinct = o.listeners_distinct;
      sftps_there = o.sftps_there;
      sftps_open = o.sftps_open;
      handles_there = o.handles_there;
      channels_there = o.channels_there;
      channels_open = o.channels_open;
      listeners_there = o.listeners_there;
      listeners_open = o.listeners_open;
    }
decref-IsGone env TypeName.channel w id b here whole =
    rw (release-last channel_slot env w id (dealloc_channel id) b here)
      (freed_channel env _ id 0 b (write-same w.channels id _))
decref-IsGone env TypeName.listener w id b here whole =
    rw (release-last listener_slot env w id (dealloc_listener id) b here)
      (freed_listener env _ id 0 b (write-same w.listeners id _))
decref-IsGone env TypeName.sftp w id b here whole =
    rw (release-last sftp_slot env w id (dealloc_sftp id) b here)
      (freed_sftp env _ id 0 b (write-same w.sftps id _) whole)
decref-IsGone env TypeName.sftpfile w id b here whole =
    rw (release-last handle_slot env w id (dealloc_handle id) b here)
      (freed_handle env _ id 0 b (write-same w.handles id _) whole)
decref-IsGone env TypeName.sftpdir w id b here whole =
    rw (release-last handle_slot env w id (dealloc_handle id) b here)
      (freed_handle env _ id 0 b (write-same w.handles id _) whole)
