-- ===== src/Store/Files/Gains.antt =====
-- `open_dir` and `open_file` of src/sftp.c keep the counts of references.
use pylibssh.Prelude.{
  ℤ, String, suc, ◌+◌, ◌≡◌, refl, ap, subst, Bool, true, false, Option, none, some, ◌∷◌, ◌||◌,
  Bool-cases, inl, inr, arith, if◌then◌else◌,
}
use pylibssh.Host
use pylibssh.Host.{Host, Env, invoke, Io, set_error, fail_with}
use pylibssh.Host.Types.{ObjId, Ptr, Bytes, is_null_ptr, Value, null, object}
use pylibssh.Host.Calls.{Kind, py_object_new}
use pylibssh.Report.Null.{report_null-null}
use pylibssh.Handles.{Sftp, Handle}
use pylibssh.Store.Run.{
  Counted, World, Cmd, ok, pure, ◌>>=◌, ◌>>◌, lift, load, modify, retain, write, write-same,
  handle_slot, sftp_slot,
}
use pylibssh.Store.Opening.{new_handle, new_object, insert_object}
use pylibssh.Store.SftpOpening.{
  open_dir, opendir, open_file, openfile, call_open, track_dir, track_file,
}
use pylibssh.Store.Returns.{Returns, returns}
use pylibssh.Store.Entries.{write-Changed, Changed-Changed}
use pylibssh.Store.Program.{Held, gain, with_ref}
use pylibssh.Store.Program.Counts.{count-head, count-head_ne, with_ref-same, with_ref-other}
use pylibssh.Store.Files.Counts.{
  kept_by, closed, UsedEntry, Filed, Filed-host, Filed-change, SetOf, directories_of, files_of,
}

-- `track_dir` and `track_file`.
abbrev pub track : SetOf → ObjId → Option ObjId → Cmd Value
track set id none = pure null
track set id (some item) = do
  modify sftp_slot id λ s. set.with_items (item ∷ set.get s) s
  retain handle_slot item
  pure (object item)

-- The state with a new object.
abbrev inserted : World → Handle → World
inserted w b = record w {
  handles = write w.handles w.next (some (record { refs = 1; body = b }));
  next = suc w.next;
}

pub track-tracked :
    (set : SetOf) (env : Env) (w : World) (id item : ObjId) (o : Counted Sftp) (h : Counted Handle)
    → w.sftps id ≡ some o
    → w.handles item ≡ some h
    → track set id (some item) env w
      ≡ ok (object item) (record w {
        sftps =
            write w.sftps id
              (some (record o { body = set.with_items (item ∷ set.get o.body) o.body }));
        handles = write w.handles item (some (record h { refs = suc h.refs }));
      })
unfolding modify retain pure ◌>>◌
track-tracked set env w id item o h sftp handle = simp (sftp, handle, modify, retain) refl

module _ (env : Env) (sid id : ObjId) (shut : ObjId → Bool) (held : Held) where
  track-Filed :
      (set : SetOf) (w : World) (b : Handle) (k : Filed sid id shut held w)
      → Returns
          (λ v w'. Filed sid id shut (gain v held) w')
          (track set id (some w.next) env (inserted w b))
  track-Filed set w b k =
      let new = w.next in
      let xs = set.get k.sftp.body in
      let s' = set.with_items (new ∷ xs) k.sftp.body in
      let gone = k.fresh new (omega arith) in
      let none_yet : held new + kept_by new k.sftp.body ≡ 0 =
        subst (UsedEntry (held new) (kept_by new k.sftp.body)) gone (k.entries new) in
      rw
        (track-tracked set env (inserted w b) id new k.sftp (record { refs = 1; body = b })
          k.sftp_there (write-same w.handles new _))
        (returns (
          Filed-change k new (with_ref new held) _ s' (some (record { refs = 2; body = b })) refl
            (write-same w.sftps id _) (with_ref-other new held)
            (λ x differ. omega (
              arith,
              set.kept_by-with_items x (new ∷ xs) k.sftp.body,
              count-head_ne x new xs differ,
            ))
            (Changed-Changed (write-Changed w.handles new _) (write-Changed _ new _))
            record {
              adds_up = omega (
                arith,
                with_ref-same new held,
                set.kept_by-with_items new (new ∷ xs) k.sftp.body,
                count-head new xs,
                none_yet,
              );
              is_closed = λ e. absurd (omega (arith, e));
            }
            (omega (
              arith,
              set.kept_by-with_items new (new ∷ xs) k.sftp.body,
              count-head new xs,
              none_yet,
            ))
            (λ e. absurd (ground (arith, ap closed gone, e))) (omega arith) (omega arith)))

  -- A new object, if there is memory for it, is tracked.
  new_handle-Filed :
      (set : SetOf) (w : World) (k : Filed sid id shut held w) (kind : Kind)
      (session sftp handle : Ptr)
      → Returns
          (λ v w'. Filed sid id shut (gain v held) w')
          ((new_handle kind session sftp handle >>= track set id) env w)
  unfolding new_object lift fail_with set_error invoke insert_object pure ◌>>=◌ ◌>>◌ Host.pure
      Host.◌>>◌
  new_handle-Filed set w k kind session sftp handle =
      elim (Bool-cases (is_null_ptr session || (is_null_ptr sftp || is_null_ptr handle))) [
        | inl missing ↦ simp (missing) (returns k)
        | inr there ↦
            elim (Bool-cases (is_null_ptr (env.reply w.host.log (py_object_new kind)).ptr)) [
              | inl none_left ↦ simp (there, none_left) (returns (Filed-host k _))
              | inr made ↦
                  simp (there, made)
                    (track-Filed set _ (record { session = session; sftp = sftp; handle = handle })
                      (Filed-host k _))
            ]
      ]

  -- The ends of `open_dir` and of `open_file`, where `report` is the error block.
  opening :
      (set : SetOf) (w : World) (k : Filed sid id shut held w) (kind : Kind) (session sftp p : Ptr)
      (report : Io Value)
      → ((h : Host) → (report env h).0 ≡ null)
      → (missing : Bool)
      → Returns
          (λ v w'. Filed sid id shut (gain v held) w')
          ((if missing then lift report else (new_handle kind session sftp p >>= track set id)) env
            w)
  unfolding lift
  opening set w k kind session sftp p report fails true =
      returns (rw (fails w.host) (Filed-host k _))
  opening set w k kind session sftp p report fails false =
      new_handle-Filed set w k kind session sftp p

  pub open_dir-Filed :
      (w : World) (args : Option String)
      → Filed sid id shut held w
      → Returns (λ v w'. Filed sid id shut (gain v held) w') (open_dir id args env w)
  unfolding open_dir opendir track_dir load invoke lift fail_with set_error ◌>>=◌ Host.◌>>◌
      Host.pure
  open_dir-Filed w args k = rw k.sftp_there (elim (Bool-cases (is_null_ptr k.sftp.body.sftp)) [
    | inl shut_down ↦ rw shut_down (returns (Filed-host k _))
    | inr live ↦ rw live (go args)
  ])
    where
      go :
          (args : Option String)
          → Returns (λ v w'. Filed sid id shut (gain v held) w') (opendir id k.sftp.body args env w)
      go none = returns (Filed-host k _)
      go (some path) =
          opening directories_of _ (Filed-host k _) Kind.dir k.sftp.body.session k.sftp.body.sftp _
            _ (report_null-null env _ _ _) _

  pub open_file-Filed :
      (w : World) (args : Option (String × Bytes × Option ℤ))
      → Filed sid id shut held w
      → Returns (λ v w'. Filed sid id shut (gain v held) w') (open_file id args env w)
  unfolding open_file openfile call_open track_file load invoke lift fail_with set_error ◌>>=◌
      Host.◌>>◌ Host.pure
  open_file-Filed w args k = rw k.sftp_there (elim (Bool-cases (is_null_ptr k.sftp.body.sftp)) [
    | inl shut_down ↦ rw shut_down (returns (Filed-host k _))
    | inr live ↦ rw live (go args)
  ])
    where
      go :
          (args : Option (String × Bytes × Option ℤ))
          → Returns
              (λ v w'. Filed sid id shut (gain v held) w')
              (openfile id k.sftp.body args env w)
      go none = returns (Filed-host k _)
      go (some a) =
          opening files_of _ (Filed-host k _) Kind.file k.sftp.body.session k.sftp.body.sftp _ _
            (report_null-null env _ _ _) _
