-- ===== src/Store/Client/Tracks.antt =====
-- New SFTP objects, files and directories, and the channels of `scp_recv`: the functions of src/session.c
-- and src/sftp.c that put them into sets keep the references as many as there are.
use pylibssh.Prelude.{suc, ◌+◌, ◌≡◌, refl, ap, subst, false, Option, some, List, [], ◌∷◌, arith}
use pylibssh.Host.{Env}
use pylibssh.Host.Types.{ObjId, is_null_ptr}
use pylibssh.Handles.{Session, Sftp, Handle}
use pylibssh.Store.Run.{
  Counted, World, pure, ◌>>◌, modify, retain, write, write-same, sftp_slot, handle_slot,
}
use pylibssh.Store.Opening.{track_sftp}
use pylibssh.Store.Returns.{Returns, returns}
use pylibssh.Store.Entries.{write-Changed, Changed-Changed}
use pylibssh.Store.Program.{gain, with_ref}
use pylibssh.Store.Program.Counts.{count}
use pylibssh.Store.Files.Counts.{in_sets, SetOf}
use pylibssh.Store.Files.Gains.{track, track-tracked}
use pylibssh.Store.Client.Tally.{Tallied, Tally-bound}
use pylibssh.Store.Client.State.{
  IsEnding, Refs, Steady, Steady-later, Steady-session, Steady-sftps, Steady-handles, in_all_sets,
}
use pylibssh.Store.Client.Discarding.{StillSteady}
use pylibssh.Store.Client.Gains.{inserted, grown, with_refs-other, with_refs-same, given}

module _ (sid : ObjId) (o : Counted Session) (refs : Refs) (w : World)
    (k : Steady sid o refs w) where
  pub track_sftp-Steady :
      (env : Env) (b : Sftp)
      → b.directories ≡ []
      → b.files ≡ []
      → Returns
          (λ v w'. StillSteady sid (record refs { sftps = gain v refs.sftps }) w')
          (track_sftp sid (some w.next) env (inserted sftp_slot b w))
  unfolding track_sftp modify retain pure ◌>>◌
  track_sftp-Steady env b no_directories no_files =
      let c = w.next in
      let r = with_ref c (with_ref c refs.sftps) in
      let table = write w.sftps c (some (record { refs = 1; body = b })) in
      let e : Option (Counted Sftp) = some (record { refs = 2; body = b }) in
      let gone = k.sftps.fresh c (omega arith) in
      let free : refs.sftps c + count c o.body.sftps ≡ 0 =
        subst (Tallied (IsEnding refs.ending c) (refs.sftps c + count c o.body.sftps)) gone
          (k.sftps.entries c) in
      simp (k.is_there, write-same w.sftps c (some (record { refs = 1; body = b })), modify, retain)
        (returns (
          _,
          Steady-session
              (Steady-sftps (Steady-later k) w.host _ c e r refs.handles
                (Changed-Changed (write-Changed w.sftps c _) (write-Changed table c _))
                (omega arith) (with_refs-other c refs.sftps)
                (
                  omega (arith, with_refs-same c refs.sftps, free),
                  λ e. absurd (omega (arith, e, with_refs-same c refs.sftps)),
                )
                (λ x.
                  omega (
                    arith,
                    ap (in_sets x) gone,
                    ap (count x) no_directories,
                    ap (count x) no_files,
                  ))
                λ null. (no_directories, no_files))
              (c ∷ o.body.sftps) o.body.channels o.body.listeners (with_ref c refs.sftps)
              refs.channels refs.listeners (λ x. given x c (with_ref c refs.sftps) o.body.sftps)
              (λ x. refl) (λ x. refl),
        ))

  -- The set of an SFTP object that is open.
  pub track-Steady :
      (env : Env) (set : SetOf) (c : ObjId) (s : Counted Sftp) (b : Handle)
      → w.sftps c ≡ some s
      → ((xs : List ObjId) → (set.with_items xs s.body).sftp ≡ s.body.sftp)
      → is_null_ptr s.body.sftp ≡ false
      → Returns
          (λ v w'. Steady sid o (record refs { handles = gain v refs.handles }) w')
          (track set c (some w.next) env (inserted handle_slot b w))
  track-Steady env set c s b here same live =
      let h = w.next in
      let r = with_ref h (with_ref h refs.handles) in
      let table = write w.handles h (some (record { refs = 1; body = b })) in
      let xs = set.get s.body in
      let e : Option (Counted Sftp) = some (record s { body = set.with_items (h ∷ xs) s.body }) in
      let k2 = Steady-handles (Steady-later k) w.host _ r (
        grown w.handles _ h 1 refs.handles r (in_all_sets w.sftps (suc h)) b
          (Steady-later k).handles (k.handles.fresh h (omega arith))
          (Changed-Changed (write-Changed w.handles h _) (write-Changed table h _))
          (with_refs-other h refs.handles) (with_refs-same h refs.handles)) in
      rw
        (track-tracked set env (inserted handle_slot b w) c h s (record { refs = 1; body = b }) here
          (write-same w.handles h _))
        (returns (
          Steady-sftps k2 w.host _ c e refs.sftps (with_ref h refs.handles)
            (write-Changed w.sftps c e) (Tally-bound (Steady-later k).sftps c s here)
            (λ x other. refl)
            (subst (Tallied (IsEnding refs.ending c) (refs.sftps c + count c o.body.sftps)) here
              (k.sftps.entries c))
            (λ x. omega (
              arith,
              ap (in_sets x) here,
              set.kept_by-with_items x (h ∷ xs) s.body,
              given x h (with_ref h refs.handles) xs,
            ))
            λ null. absurd (ground (arith, live, null, same (h ∷ xs)))))
