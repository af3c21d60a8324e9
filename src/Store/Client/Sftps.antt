-- ===== src/Store/Client/Sftps.antt =====
-- `PYLIBSSH2_Sftp_dealloc` of src/sftp.c, and references to SFTP objects, keep the references as many
-- as there are.
use pylibssh.Prelude.{
  ℕ, zero, suc, ◌+◌, ◌<◌, ◌≡◌, refl, sym, ap, subst, none, some, [], Bool-cases, inl, inr, arith,
  if◌then◌else◌, Bool, true, ◌∙◌, ◌==◌, ==_iff, ◌||◌,
}
use pylibssh.Host.{Env}
use pylibssh.Host.Types.{ObjId, is_null_ptr}
use pylibssh.Handles.{Session, Sftp}
use pylibssh.Store.Run.{
  Counted, Table, World, pure, ◌>>=◌, ◌>>◌, load, retain, release, destroy, write, write-same,
  sftp_slot, handle_slot,
}
use pylibssh.Store.Objects.{shutdown_sftp, dealloc_sftp, free_set, dealloc_handle}
use pylibssh.Store.Sessions.{finish_sftp}
use pylibssh.Store.Returns.{Returns, returns, mono, chain}
use pylibssh.Store.Entries.{write-Changed, release-last, release-kept}
use pylibssh.Store.Twice.{shutdown_null}
use pylibssh.Store.Program.{with_ref}
use pylibssh.Store.Program.Counts.{count, with_ref-other, with_ref-same}
use pylibssh.Store.Files.Counts.{in_sets}
use pylibssh.Store.Client.Tally.{Tallied, Tally-bound}
use pylibssh.Store.Client.State.{IsEnding, Refs, Steady, Steady-sftps, Steady-ending, KeepsNothing}
use pylibssh.Store.Client.Losses.{one_more, held_there}
use pylibssh.Store.Client.Shutting.{IsShut, shuts_live}

module _ (env : Env) (sid : ObjId) (o : Counted Session) (c : ObjId) (refs : Refs) where
  shuts :
      (w : World) (n : ℕ) (s : Sftp)
      → Steady sid o refs w
      → w.sftps c ≡ some (record { refs = n; body = s })
      → Returns (λ _ w'. Steady sid o refs w' × IsShut c n w') (shutdown_sftp c env w)
  shuts w n s k here = elim (Bool-cases (is_null_ptr s.sftp)) [
    | inl null ↦
        rw (shutdown_null env w c (record { refs = n; body = s }) here null)
          (returns (k, (s, here, null)))
    | inr live ↦ shuts_live env sid o c n s refs live w k here
  ]

  pub shuts_sftp :
      (w : World)
      → Steady sid o refs w
      → 0 < refs.sftps c
      → Returns (λ _ w'. Steady sid o refs w') (shutdown_sftp c env w)
  shuts_sftp w k has =
      let (b, here) = held_there c refs.sftps (λ x. count x o.body.sftps) k.sftps has in
      mono (shuts w _ b k here) λ _ w' (k', shut). k'

  -- The end of an object that is shut down, to which there are no references.
  ends :
      (w : World) (b : Sftp)
      → Steady sid o refs w
      → w.sftps c ≡ some (record { refs = 0; body = b })
      → b.directories ≡ []
      → b.files ≡ []
      → Returns
          (λ _ w'. Steady sid o refs w' × (w'.sftps c ≡ none))
          ((load sftp_slot c >>= λ left.
              free_set (λ item. release handle_slot item (dealloc_handle item)) left.directories
              >> (free_set (λ item. release handle_slot item (dealloc_handle item)) left.files
                  >> destroy sftp_slot c))
            env w)
  unfolding load free_set destroy pure ◌>>=◌ ◌>>◌
  ends w b k here no_directories no_files =
      let none_left : refs.sftps c + count c o.body.sftps ≡ 0 =
        sym
          (subst (Tallied (IsEnding refs.ending c) (refs.sftps c + count c o.body.sftps)) here
            (k.sftps.entries c)).0 in
      simp (here, no_directories, no_files)
        (returns (
          Steady-sftps k w.host _ c none refs.sftps refs.handles (write-Changed w.sftps c none)
              (Tally-bound k.sftps c _ here) (λ x other. refl) none_left
              (λ x.
                omega
                  (arith, ap (in_sets x) here, ap (count x) no_directories, ap (count x) no_files))
              tt,
          write-same w.sftps c none,
        ))

  shuts_if_live :
      (w : World) (s : Sftp)
      → Steady sid o refs w
      → w.sftps c ≡ some (record { refs = 0; body = s })
      → Returns
          (λ _ w'. Steady sid o refs w' × IsShut c 0 w')
          ((if is_null_ptr s.sftp then pure tt else shutdown_sftp c) env w)
  unfolding pure
  shuts_if_live w s k here = elim (Bool-cases (is_null_ptr s.sftp)) [
    | inl null ↦ rw null (returns (k, (s, here, null)))
    | inr live ↦ rw live (shuts w 0 s k here)
  ]

  deallocs :
      (w : World) (b : Sftp)
      → Steady sid o refs w
      → w.sftps c ≡ some (record { refs = 0; body = b })
      → Returns (λ _ w'. Steady sid o refs w' × (w'.sftps c ≡ none)) (dealloc_sftp c env w)
  unfolding dealloc_sftp load ◌>>=◌
  deallocs w b k here = rw here (
      chain env _ _ w (shuts_if_live w b k here) λ _ w' (k', (b', here', null)).
        let (no_directories, no_files) = subst KeepsNothing here' (k'.emptied c) null in
        ends w' b' k' here' no_directories no_files)

  -- One reference less.
  lowered :
      (w : World) (n : ℕ) (b : Sftp)
      → Steady sid o (record refs { sftps = with_ref c refs.sftps }) w
      → n ≡ refs.sftps c + count c o.body.sftps
      → w.sftps c ≡ some (record { refs = suc n; body = b })
      → (n ≡ 0 → refs.ending c ≡ true)
      → Steady sid o refs
          (record w { sftps = write w.sftps c (some (record { refs = n; body = b })) })
  lowered w n b k same here last =
      Steady-sftps k w.host _ c _ refs.sftps refs.handles (write-Changed w.sftps c _)
        (Tally-bound k.sftps c _ here) (λ x other. sym (with_ref-other c refs.sftps x other))
        (same, λ e. last (same ∙ e)) (λ x. omega (arith, ap (in_sets x) here))
        (subst KeepsNothing here (k.emptied c))

  pub copies_sftp :
      (w : World)
      → Steady sid o refs w
      → 0 < refs.sftps c
      → Returns
          (λ _ w'. Steady sid o (record refs { sftps = with_ref c refs.sftps }) w')
          (retain sftp_slot c env w)
  unfolding retain
  copies_sftp w k has =
      let (b, here) = held_there c refs.sftps (λ x. count x o.body.sftps) k.sftps has in
      rw here (
        returns (
          Steady-sftps k w.host _ c _ (with_ref c refs.sftps) refs.handles
            (write-Changed w.sftps c _) (Tally-bound k.sftps c _ here) (with_ref-other c refs.sftps)
            (
              omega (arith, with_ref-same c refs.sftps),
              λ e. absurd (omega (arith, e, with_ref-same c refs.sftps)),
            )
            (λ x. omega (arith, ap (in_sets x) here)) (subst KeepsNothing here (k.emptied c))))

-- An object that is in memory is none that has gone.
still_ending :
    (c : ObjId) (ending : ObjId → Bool) (table : Table Sftp) (y : ObjId) (s : Counted Sftp)
    → table c ≡ none
    → table y ≡ some s
    → (y == c || ending y) ≡ true
    → ending y ≡ true
still_ending c ending table y s gone there e = elim (Bool-cases (y == c)) [
  | inl same ↦ absurd (ground (arith, sym (ap table ((==_iff y c).0 same) ∙ gone) ∙ there))
  | inr differ ↦ ground (arith, differ, e)
]

module _ (env : Env) (sid : ObjId) (o : Counted Session) (c : ObjId) (refs : Refs) where
  -- The references while the object is in its `tp_dealloc`.
  abbrev last_refs : Refs
  last_refs = record refs { ending = λ y. y == c || refs.ending y }

  drops_last :
      (w : World) (b : Sftp)
      → Steady sid o (record refs { sftps = with_ref c refs.sftps }) w
      → 0 ≡ refs.sftps c + count c o.body.sftps
      → w.sftps c ≡ some (record { refs = 1; body = b })
      → Returns (λ _ w'. Steady sid o refs w') (release sftp_slot c (dealloc_sftp c) env w)
  drops_last w b k same here =
      let k' = Steady-ending k last_refs.ending λ y s there e. ground (arith, e) in
      rw (release-last sftp_slot env w c (dealloc_sftp c) b here) (
        mono
          (deallocs env sid o c last_refs _ b
            (lowered env sid o c last_refs w 0 b k' same here λ e. ground arith)
            (write-same w.sftps c _))
          λ _ w' (k'', gone).
            Steady-ending k'' refs.ending
              λ y s there e. still_ending c refs.ending w'.sftps y s gone there e)

  drops_one :
      (w : World) (n : ℕ) (b : Sftp)
      → Steady sid o (record refs { sftps = with_ref c refs.sftps }) w
      → n ≡ refs.sftps c + count c o.body.sftps
      → w.sftps c ≡ some (record { refs = suc n; body = b })
      → Returns (λ _ w'. Steady sid o refs w') (release sftp_slot c (dealloc_sftp c) env w)
  drops_one w zero b k same here = drops_last w b k same here
  drops_one w (suc n) b k same here =
      rw (release-kept sftp_slot env w c (dealloc_sftp c) b n here)
        (returns (lowered env sid o c refs w (suc n) b k same here λ e. absurd (omega (arith, e))))

  pub drops_sftp :
      (w : World)
      → Steady sid o (record refs { sftps = with_ref c refs.sftps }) w
      → Returns (λ _ w'. Steady sid o refs w') (release sftp_slot c (dealloc_sftp c) env w)
  drops_sftp w k =
      let (b, here) = one_more c refs.sftps (λ x. count x o.body.sftps) k.sftps in
      drops_one w _ b k refl here

module _ (env : Env) (sid : ObjId) (o : Counted Session) (c : ObjId) (refs : Refs) (w : World) where
  -- The body of the loop over SFTP objects.
  pub finishes_sftp :
      Steady sid o (record refs { sftps = with_ref c refs.sftps }) w
      → Returns (λ _ w'. Steady sid o refs w') (finish_sftp c env w)
  unfolding finish_sftp
  finishes_sftp k =
      chain env _ _ w (shuts_sftp env sid o c _ w k (omega (arith, with_ref-same c refs.sftps)))
        λ _ w1 k1. drops_sftp env sid o c refs w1 k1
