-- ===== src/Store/Client/Openings.antt =====
-- `open_dir` and `open_file` of src/sftp.c keep the references as many as there are.
use pylibssh.Prelude.{
  ℕ, ℤ, ◌+◌, String, ◌<◌, ◌≡◌, refl, Bool, true, false, Option, none, some, List, Bool-cases, inl,
  inr, if◌then◌else◌,
}
use pylibssh.Host
use pylibssh.Host.{Host, Env, invoke, Io, set_error, fail_with}
use pylibssh.Host.Types.{ObjId, Ptr, Bytes, is_null_ptr, Value, null}
use pylibssh.Host.Calls.{Kind}
use pylibssh.Report.Null.{report_null-null}
use pylibssh.Handles.{Session, Sftp}
use pylibssh.Store.Run.{Counted, World, pure, ◌>>=◌, lift, load, handle_slot}
use pylibssh.Store.Opening.{new_handle}
use pylibssh.Store.SftpOpening.{
  open_dir, opendir, open_file, openfile, call_open, track_dir, track_file,
}
use pylibssh.Store.Returns.{Returns, returns}
use pylibssh.Store.Program.{gain}
use pylibssh.Store.Program.Counts.{count}
use pylibssh.Store.Files.Counts.{SetOf, directories_of, files_of}
use pylibssh.Store.Files.Gains.{track}
use pylibssh.Store.Client.State.{Refs, Steady, Steady-host}
use pylibssh.Store.Client.Losses.{held_there}
use pylibssh.Store.Client.Gains.{new_object-Returns}
use pylibssh.Store.Client.Tracks.{track-Steady}

-- `c` is the SFTP object.
module _ (env : Env) (sid : ObjId) (o : Counted Session) (refs : Refs) (c : ObjId) where
  handles_made :
      (set : SetOf) (w : World) (kind : Kind) (n : ℕ) (s : Sftp) (session sftp p : Ptr)
      (report : Io Value)
      → Steady sid o refs w
      → w.sftps c ≡ some (record { refs = n; body = s })
      → ((xs : List ObjId) → (set.with_items xs s).sftp ≡ s.sftp)
      → is_null_ptr s.sftp ≡ false
      → ((h : Host) → (report env h).0 ≡ null)
      → (missing : Bool)
      → Returns
          (λ v w'. Steady sid o (record refs { handles = gain v refs.handles }) w')
          ((if missing then lift report else (new_handle kind session sftp p >>= track set c)) env
            w)
  unfolding lift pure
  handles_made set w kind n s session sftp p report k here same live fails true =
      returns (rw (fails w.host) (Steady-host k _))
  handles_made set w kind n s session sftp p report k here same live fails false =
      new_object-Returns handle_slot env w kind _ _ (track set c) (λ h. returns (Steady-host k h))
        λ h.
          track-Steady sid o refs _ (Steady-host k h) env set c (record { refs = n; body = s }) _
            here same live

  module _ (w : World) (k : Steady sid o refs w) (has : 0 < refs.sftps c) where
    pub open_dir-Steady :
        (args : Option String)
        → Returns
            (λ v w'. Steady sid o (record refs { handles = gain v refs.handles }) w')
            (open_dir c args env w)
    unfolding open_dir opendir track_dir load invoke lift fail_with set_error ◌>>=◌ Host.◌>>◌
        Host.pure
    open_dir-Steady args =
        let (s, here) = held_there c refs.sftps (λ x. count x o.body.sftps) k.sftps has in
        rw here (elim (Bool-cases (is_null_ptr s.sftp)) [
          | inl shut ↦ rw shut (returns (Steady-host k _))
          | inr live ↦ rw live (go s here live args)
        ])
      where
        go :
            (s : Sftp)
            → w.sftps c ≡ some (record { refs = refs.sftps c + count c o.body.sftps; body = s })
            → is_null_ptr s.sftp ≡ false
            → (args : Option String)
            → Returns
                (λ v w'. Steady sid o (record refs { handles = gain v refs.handles }) w')
                (opendir c s args env w)
        go s here live none = returns (Steady-host k _)
        go s here live (some path) =
            handles_made directories_of _ Kind.dir _ s s.session s.sftp _ _ (Steady-host k _) here
              (λ xs. refl) live (report_null-null env _ _ _) _

    pub open_file-Steady :
        (args : Option (String × Bytes × Option ℤ))
        → Returns
            (λ v w'. Steady sid o (record refs { handles = gain v refs.handles }) w')
            (open_file c args env w)
    unfolding open_file openfile call_open track_file load invoke lift fail_with set_error ◌>>=◌
        Host.◌>>◌ Host.pure
    open_file-Steady args =
        let (s, here) = held_there c refs.sftps (λ x. count x o.body.sftps) k.sftps has in
        rw here (elim (Bool-cases (is_null_ptr s.sftp)) [
          | inl shut ↦ rw shut (returns (Steady-host k _))
          | inr live ↦ rw live (go s here live args)
        ])
      where
        go :
            (s : Sftp)
            → w.sftps c ≡ some (record { refs = refs.sftps c + count c o.body.sftps; body = s })
            → is_null_ptr s.sftp ≡ false
            → (args : Option (String × Bytes × Option ℤ))
            → Returns
                (λ v w'. Steady sid o (record refs { handles = gain v refs.handles }) w')
                (openfile c s args env w)
        go s here live none = returns (Steady-host k _)
        go s here live (some a) =
            handles_made files_of _ Kind.file _ s s.session s.sftp _ _ (Steady-host k _) here
              (λ xs. refl) live (report_null-null env _ _ _) _
