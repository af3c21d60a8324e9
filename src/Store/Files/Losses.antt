-- ===== src/Store/Files/Losses.antt =====
-- The program's own references, and the methods of src/sftp.c, src/sftpfile.c and src/sftpdir.c on an
-- object that a program has, keep the counts of references.
use pylibssh.Prelude.{
  ℕ, zero, suc, ◌+◌, ◌<◌, ◌≡◌, refl, sym, ap, ◌∙◌, Bool, true, Option, none, some, Bool-cases, inl,
  inr, arith, if◌then◌else◌,
}
use pylibssh.Host
use pylibssh.Host.{Env, Io, invoke, fail_with, set_error}
use pylibssh.Host.Types.{ObjId, Value, is_null_ptr}
use pylibssh.Handles.{Handle}
use pylibssh.Store.Run.{
  Counted, World, pure, ◌>>=◌, ◌>>◌, lift, load, modify, retain, release, destroy, write-same,
  handle_slot, sftp_slot,
}
use pylibssh.Store.Sets.{contains, discard}
use pylibssh.Store.Objects.{close_handle, dealloc_handle}
use pylibssh.Store.Sessions.{discard_from}
use pylibssh.Store.SftpOpening.{close_dir, close_file, close_item}
use pylibssh.Store.Returns.{Returns, returns, mono, chain}
use pylibssh.Store.Entries.{Changed, write-Changed, Changed-Changed, release-last, release-kept}
use pylibssh.Store.Program.{Held, with_ref, without_ref}
use pylibssh.Store.Program.Counts.{
  with_ref-same, with_ref-other, without_ref-same, without_ref-other, count-discard,
  count-discard_ne,
}
use pylibssh.Store.Files.Counts.{
  kept_by, closed, Used, UsedEntry, Filed, Filed-host, Filed-there, Filed-bound, Filed-change,
  SetOf, directories_of, files_of,
}

-- The entry of an object that loses a reference: without one it is freed only if it is open.
abbrev pub given_up : ℕ → Handle → Option (Counted Handle)
given_up zero b = none
given_up (suc zero) b = if is_null_ptr b.handle then some (record { refs = 0; body = b }) else none
given_up (suc (suc n)) b = some (record { refs = suc n; body = b })

given_up-UsedEntry :
    (h n h' n' refs : ℕ) (b : Handle)
    → Used h n (record { refs = refs; body = b })
    → h + n ≡ suc (h' + n')
    → UsedEntry h' n' (given_up refs b)
given_up-UsedEntry h n h' n' zero b l less = absurd (omega (arith, l.adds_up, less))
given_up-UsedEntry h n h' n' (suc zero) b l less = elim (Bool-cases (is_null_ptr b.handle)) [
  | inl null ↦ rw null (record { adds_up = omega (arith, l.adds_up, less); is_closed = λ e. null })
  | inr live ↦ rw live (omega (arith, l.adds_up, less))
]
given_up-UsedEntry h n h' n' (suc (suc m)) b l less = record {
  adds_up = omega (arith, l.adds_up, less);
  is_closed = λ e. absurd (omega (arith, e));
}

closed-given_up :
    (refs : ℕ) (b : Handle)
    → 0 < refs
    → is_null_ptr b.handle ≡ true
    → closed (given_up refs b) ≡ true
closed-given_up zero b more null = absurd (omega (arith, more))
closed-given_up (suc zero) b more null = rw null null
closed-given_up (suc (suc n)) b more null = null

-- A state in which at most the table of these objects and the calls are others.
abbrev pub HandlesOnly : World → World → Type 0
HandlesOnly w w' = w' ≡ record w { host = w'.host; handles = w'.handles }

dealloc_handle-Changed :
    (env : Env) (w : World) (c : ObjId) (b : Handle)
    → w.handles c ≡ some (record { refs = 0; body = b })
    → Returns
        (λ _ w'. HandlesOnly w w' × Changed w.handles c (given_up 1 b) w'.handles)
        (dealloc_handle c env w)
unfolding dealloc_handle load modify destroy lift pure ◌>>=◌ ◌>>◌
dealloc_handle-Changed env w c b here = elim (Bool-cases (is_null_ptr b.handle)) [
  | inl null ↦ simp (here, null) (returns (refl, record { others = λ x other. refl; this = here }))
  | inr live ↦
      simp (here, live)
        (returns (refl, Changed-Changed (write-Changed w.handles c _) (write-Changed _ c none)))
]

pub release-given_up :
    (env : Env) (w : World) (c refs : ℕ) (b : Handle)
    → w.handles c ≡ some (record { refs = refs; body = b })
    → 0 < refs
    → Returns
        (λ _ w'. HandlesOnly w w' × Changed w.handles c (given_up refs b) w'.handles)
        (release handle_slot c (dealloc_handle c) env w)
release-given_up env w c zero b here more = absurd (omega (arith, more))
release-given_up env w c (suc zero) b here more =
    let last : Option (Counted Handle) = some (record { refs = 0; body = b }) in
    rw (release-last handle_slot env w c (dealloc_handle c) b here) (
      mono (dealloc_handle-Changed env _ c b (write-same w.handles c last))
        λ _ w' (only, changed). (only, Changed-Changed (write-Changed w.handles c last) changed))
release-given_up env w c (suc (suc n)) b here more =
    rw (release-kept handle_slot env w c (dealloc_handle c) b n here)
      (returns (refl, write-Changed w.handles c _))

module _ (env : Env) (sid id c : ObjId) (shut : ObjId → Bool) (held : Held) (w : World)
    (k : Filed sid id shut held w) (has : 0 < held c) where
  pub copies-Filed :
      Returns (λ _ w'. Filed sid id shut (with_ref c held) w') ((retain handle_slot c) env w)
  unfolding retain
  copies-Filed =
      let (o, here, l) = Filed-there k c has in
      rw here (
        returns (
          Filed-change k c (with_ref c held) _ k.sftp.body _ refl k.sftp_there
            (with_ref-other c held) (λ x differ. refl) (write-Changed w.handles c _)
            record {
              adds_up = omega (arith, with_ref-same c held, l.adds_up);
              is_closed = λ e. absurd (omega (arith, e));
            }
            (k.once c) (λ null. sym (ap closed here) ∙ null) (omega arith)
            (Filed-bound k c o here)))

  -- A method that reads the object and changes none.
  pub calls-Filed :
      (m : Handle → Io Value)
      → Returns
          (λ _ w'. Filed sid id shut held w')
          ((load handle_slot c >>= λ self. lift (m self)) env w)
  unfolding load lift ◌>>=◌
  calls-Filed m = let (o, here, l) = Filed-there k c has in rw here (returns (Filed-host k _))

  pub drops-Filed :
      Returns
        (λ _ w'. Filed sid id shut (without_ref c held) w')
        (release handle_slot c (dealloc_handle c) env w)
  drops-Filed =
      let (o, here, l) = Filed-there k c has in
      let some_refs : 0 < o.refs = omega (arith, l.adds_up, has) in
      mono (release-given_up env w c o.refs o.body here some_refs) λ _ w' (only, changed).
        Filed-change k c (without_ref c held) w' k.sftp.body (given_up o.refs o.body)
          (ap (λ v. v.sessions) only) (ap (λ v. v.sftps id) only ∙ k.sftp_there)
          (without_ref-other c held) (λ x differ. refl) changed
          (given_up-UsedEntry (held c) _ (without_ref c held c) _ o.refs o.body l
            (omega (arith, without_ref-same c held, has)))
          (k.once c) (λ null. closed-given_up o.refs o.body some_refs (sym (ap closed here) ∙ null))
          (omega (arith, ap (λ v. v.next) only))
          (omega (arith, ap (λ v. v.next) only, Filed-bound k c o here))

  -- `PYLIBSSH2_Sftpdir_close` and `PYLIBSSH2_Sftpfile_close`
  pub close_handle-Filed : Returns (λ _ w'. Filed sid id shut held w') (close_handle c env w)
  unfolding close_handle load modify lift invoke ◌>>=◌ ◌>>◌
  close_handle-Filed =
      let (o, here, l) = Filed-there k c has in
      simp (here, modify)
        (returns (
          Filed-change k c held _ k.sftp.body _ refl k.sftp_there (λ x differ. refl)
            (λ x differ. refl) (write-Changed w.handles c _)
            record { adds_up = l.adds_up; is_closed = λ e. refl } (k.once c) (λ null. refl)
            (omega arith) (Filed-bound k c o here)))

  -- A set gives its reference back.
  pub discards-Filed :
      (set : SetOf)
      → Returns
          (λ _ w'. Filed sid id shut held w')
          (discard_from
            (set.get k.sftp.body)
            (λ xs. modify sftp_slot id (set.with_items xs))
            c
            (release handle_slot c (dealloc_handle c))
            env
            w)
  unfolding discard_from modify pure ◌>>◌
  discards-Filed set = elim (Bool-cases (contains c (set.get k.sftp.body))) [
    | inl present ↦
        let (o, here, l) = Filed-there k c has in
        let some_refs : 0 < o.refs = omega (arith, l.adds_up, has) in
        let xs = set.get k.sftp.body in
        let s' = set.with_items (discard c xs) k.sftp.body in
        let fewer : suc (kept_by c s') ≡ kept_by c k.sftp.body = omega (
          arith,
          set.kept_by-with_items c (discard c xs) k.sftp.body,
          count-discard c xs present,
        ) in
        rw (present, k.sftp_there)
          (mono (release-given_up env _ c o.refs o.body here some_refs) λ _ w' (only, changed).
            Filed-change k c held w' s' (given_up o.refs o.body) (ap (λ v. v.sessions) only)
              (ap (λ v. v.sftps id) only ∙ write-same w.sftps id _) (λ x differ. refl)
              (λ x differ. omega (
                arith,
                set.kept_by-with_items x (discard c xs) k.sftp.body,
                count-discard_ne x c xs differ,
              ))
              changed
              (given_up-UsedEntry (held c) _ (held c) _ o.refs o.body l (omega (arith, fewer)))
              (omega (arith, fewer, k.once c))
              (λ null. closed-given_up o.refs o.body some_refs (sym (ap closed here) ∙ null))
              (omega (arith, ap (λ v. v.next) only))
              (omega (arith, ap (λ v. v.next) only, Filed-bound k c o here)))
    | inr absent ↦ rw absent (returns k)
  ]

-- `close_dir` and `close_file`, behind the test of the SFTP object.
closes :
    (env : Env) (sid id c : ObjId) (shut : ObjId → Bool) (held : Held) (set : SetOf) (w : World)
    (k : Filed sid id shut held w)
    → 0 < held c
    → Returns
        (λ _ w'. Filed sid id shut held w')
        (close_item id
          (some c)
          (λ item.
            discard_from
              (set.get k.sftp.body)
              (λ xs. modify sftp_slot id (set.with_items xs))
              item
              (release handle_slot item (dealloc_handle item))
            >> close_handle item)
          env
          w)
unfolding close_item pure
closes env sid id c shut held set w k has =
    chain env _ _ w
      (chain env _ _ w (discards-Filed env sid id c shut held w k has set)
        λ _ w1 k1. close_handle-Filed env sid id c shut held w1 k1 has)
      λ _ w2 k2. returns k2

module _ (env : Env) (sid id c : ObjId) (shut : ObjId → Bool) (held : Held) (w : World)
    (k : Filed sid id shut held w) (has : 0 < held c) where
  pub closes_dir-Filed : Returns (λ _ w'. Filed sid id shut held w') (close_dir id (some c) env w)
  unfolding close_dir load lift fail_with set_error ◌>>=◌ Host.◌>>◌ Host.pure
  closes_dir-Filed = rw k.sftp_there (elim (Bool-cases (is_null_ptr k.sftp.body.sftp)) [
    | inl null ↦ rw null (returns (Filed-host k _))
    | inr live ↦ rw live (closes env sid id c shut held directories_of w k has)
  ])

  pub closes_file-Filed : Returns (λ _ w'. Filed sid id shut held w') (close_file id (some c) env w)
  unfolding close_file load lift fail_with set_error ◌>>=◌ Host.◌>>◌ Host.pure
  closes_file-Filed = rw k.sftp_there (elim (Bool-cases (is_null_ptr k.sftp.body.sftp)) [
    | inl null ↦ rw null (returns (Filed-host k _))
    | inr live ↦ rw live (closes env sid id c shut held files_of w k has)
  ])
