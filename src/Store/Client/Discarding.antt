-- ===== src/Store/Client/Discarding.antt =====
-- `channel_close`, `sftp_shutdown` and `forward_cancel` of src/session.c, and `close_dir` and
-- `close_file` of src/sftp.c, keep the references as many as there are.
use pylibssh.Prelude.{
  ℕ, ◌+◌, ◌<◌, ◌≡◌, refl, sym, ap, subst, false, true, Option, some, List, ◌==◌, ==_iff, Bool-cases,
  inl, inr, arith,
}
use pylibssh.Host
use pylibssh.Host.{Env, invoke, fail_with, set_error}
use pylibssh.Host.Types.{ObjId, is_null_ptr}
use pylibssh.Handles.{Session, Sftp}
use pylibssh.Store.Run.{
  Counted, World, pure, ◌>>=◌, ◌>>◌, lift, load, modify, release, channel_slot, listener_slot,
  sftp_slot, handle_slot,
}
use pylibssh.Store.Sets.{contains, discard}
use pylibssh.Store.Objects.{
  dealloc_channel, dealloc_listener, dealloc_sftp, dealloc_handle, close_handle,
}
use pylibssh.Store.Sessions.{
  set_sftps, set_channels, set_listeners, discard_from, channel_close, sftp_shutdown,
  forward_cancel,
}
use pylibssh.Store.SftpOpening.{close_dir, close_file, close_item}
use pylibssh.Store.Returns.{Returns, returns, mono, chain}
use pylibssh.Store.Entries.{write-Changed, apart}
use pylibssh.Store.Program.{Held, with_ref}
use pylibssh.Store.Program.Counts.{count, count-discard, count-discard_ne}
use pylibssh.Store.Files.Counts.{in_sets, SetOf, directories_of, files_of}
use pylibssh.Store.Client.Tally.{Tallied, Tally-bound}
use pylibssh.Store.Client.State.{IsEnding, Refs, Steady, Steady-host, Steady-session, Steady-sftps}
use pylibssh.Store.Client.Losses.{held_there}
use pylibssh.Store.Client.Steps.{
  drops_channel, drops_listener, drops_handle, closes_channel, closes_handle, cancels_listener,
}
use pylibssh.Store.Client.Sftps.{drops_sftp, shuts_sftp}

-- What a set loses, the one who has taken the element out gains.
moved :
    (x c : ObjId) (xs : List ObjId) (r : Held)
    → contains c xs ≡ true
    → with_ref c r x + count x (discard c xs) ≡ r x + count x xs
moved x c xs r present = elim (Bool-cases (x == c)) [
  | inl same ↦
      subst (λ y. with_ref c r y + count y (discard c xs) ≡ r y + count y xs)
        (sym ((==_iff x c).0 same)) (ground (arith, count-discard c xs present))
  | inr differ ↦ ground (arith, differ, count-discard_ne x c xs (apart x c differ))
]

-- The session object is some other one afterwards.
abbrev pub StillSteady : ObjId → Refs → World → Type 0
StillSteady sid refs w = (o : Counted Session) × Steady sid o refs w

module _ (env : Env) (sid : ObjId) (o : Counted Session) (c : ObjId) (refs : Refs) (w : World)
    (k : Steady sid o refs w) where
  discards_channel :
      Returns
        (λ _ w'. StillSteady sid refs w')
        (discard_from o.body.channels
          (set_channels sid)
          c
          (release channel_slot c (dealloc_channel c))
          env
          w)
  unfolding discard_from modify pure ◌>>◌
  discards_channel = elim (Bool-cases (contains c o.body.channels)) [
    | inl present ↦
        rw (present, k.is_there)
          (mono
            (drops_channel env sid _ c refs _ (
              Steady-session k o.body.sftps (discard c o.body.channels) o.body.listeners refs.sftps
                (with_ref c refs.channels) refs.listeners (λ x. refl)
                (λ x. moved x c o.body.channels refs.channels present) λ x. refl))
            λ _ w' k'. (_, k'))
    | inr absent ↦ rw absent (returns (o, k))
  ]

  discards_sftp :
      Returns
        (λ _ w'. StillSteady sid refs w')
        (discard_from o.body.sftps (set_sftps sid) c (release sftp_slot c (dealloc_sftp c)) env w)
  unfolding discard_from modify pure ◌>>◌
  discards_sftp = elim (Bool-cases (contains c o.body.sftps)) [
    | inl present ↦
        rw (present, k.is_there)
          (mono
            (drops_sftp env sid _ c refs _ (
              Steady-session k (discard c o.body.sftps) o.body.channels o.body.listeners
                (with_ref c refs.sftps) refs.channels refs.listeners
                (λ x. moved x c o.body.sftps refs.sftps present) (λ x. refl) λ x. refl))
            λ _ w' k'. (_, k'))
    | inr absent ↦ rw absent (returns (o, k))
  ]

  discards_listener :
      Returns
        (λ _ w'. StillSteady sid refs w')
        (discard_from o.body.listeners
          (set_listeners sid)
          c
          (release listener_slot c (dealloc_listener c))
          env
          w)
  unfolding discard_from modify pure ◌>>◌
  discards_listener = elim (Bool-cases (contains c o.body.listeners)) [
    | inl present ↦
        rw (present, k.is_there)
          (mono
            (drops_listener env sid _ c refs _ (
              Steady-session k o.body.sftps o.body.channels (discard c o.body.listeners) refs.sftps
                refs.channels (with_ref c refs.listeners) (λ x. refl) (λ x. refl)
                λ x. moved x c o.body.listeners refs.listeners present))
            λ _ w' k'. (_, k'))
    | inr absent ↦ rw absent (returns (o, k))
  ]

  pub channel_close-Steady :
      0 < refs.channels c
      → Returns (λ _ w'. StillSteady sid refs w') (channel_close sid (some c) env w)
  unfolding channel_close load pure ◌>>=◌
  channel_close-Steady has = rw k.is_there (
      chain env _ _ w discards_channel λ _ w1 (o1, k1).
        chain env _ _ w1 (closes_channel env sid o1 c refs w1 k1 has) λ _ w2 k2. returns (o1, k2))

  pub sftp_shutdown-Steady :
      0 < refs.sftps c
      → Returns (λ _ w'. StillSteady sid refs w') (sftp_shutdown sid (some c) env w)
  unfolding sftp_shutdown load pure ◌>>=◌
  sftp_shutdown-Steady has = rw k.is_there (
      chain env _ _ w discards_sftp λ _ w1 (o1, k1).
        chain env _ _ w1 (shuts_sftp env sid o1 c refs w1 k1 has) λ _ w2 k2. returns (o1, k2))

  pub forward_cancel-Steady :
      0 < refs.listeners c
      → Returns (λ _ w'. StillSteady sid refs w') (forward_cancel sid (some c) env w)
  unfolding forward_cancel load pure ◌>>=◌
  forward_cancel-Steady has = rw k.is_there (
      chain env _ _ w discards_listener λ _ w1 (o1, k1).
        chain env _ _ w1 (cancels_listener env sid o1 c refs w1 k1 has) λ _ w2 k2. returns (o1, k2))

-- `c` is the SFTP object, and `h` the file or directory.
module _ (env : Env) (sid : ObjId) (o : Counted Session) (c h : ObjId) (refs : Refs) (w : World)
    (k : Steady sid o refs w) (there : 0 < refs.sftps c) (has : 0 < refs.handles h) where
  discards_handle :
      (set : SetOf) (n : ℕ) (s : Sftp)
      → w.sftps c ≡ some (record { refs = n; body = s })
      → ((xs : List ObjId) → (set.with_items xs s).sftp ≡ s.sftp)
      → is_null_ptr s.sftp ≡ false
      → Returns
          (λ _ w'. Steady sid o refs w')
          (discard_from
            (set.get s)
            (λ xs. modify sftp_slot c (set.with_items xs))
            h
            (release handle_slot h (dealloc_handle h))
            env
            w)
  unfolding discard_from modify pure ◌>>◌
  discards_handle set n s here same live = elim (Bool-cases (contains h (set.get s))) [
    | inl present ↦
        let xs = set.get s in
        let e : Option (Counted Sftp) =
          some (record { refs = n; body = set.with_items (discard h xs) s }) in
        rw (present, here)
          (mono
            (drops_handle env sid o h refs _ (
              Steady-sftps k w.host _ c e refs.sftps (with_ref h refs.handles)
                (write-Changed w.sftps c e) (Tally-bound k.sftps c _ here) (λ x other. refl)
                (subst (Tallied (IsEnding refs.ending c) (refs.sftps c + count c o.body.sftps)) here
                  (k.sftps.entries c))
                (λ x. omega (
                  arith,
                  ap (in_sets x) here,
                  set.kept_by-with_items x (discard h xs) s,
                  moved x h xs refs.handles present,
                ))
                λ null. absurd (ground (arith, live, null, same (discard h xs)))))
            λ _ w' (k', only). k')
    | inr absent ↦ rw absent (returns k)
  ]

  closes :
      (set : SetOf) (n : ℕ) (s : Sftp)
      → w.sftps c ≡ some (record { refs = n; body = s })
      → ((xs : List ObjId) → (set.with_items xs s).sftp ≡ s.sftp)
      → is_null_ptr s.sftp ≡ false
      → Returns
          (λ _ w'. Steady sid o refs w')
          (close_item c
            (some h)
            (λ item.
              discard_from
                (set.get s)
                (λ xs. modify sftp_slot c (set.with_items xs))
                item
                (release handle_slot item (dealloc_handle item))
              >> close_handle item)
            env
            w)
  unfolding close_item pure
  closes set n s here same live =
      chain env _ _ w
        (chain env _ _ w (discards_handle set n s here same live)
          λ _ w1 k1. mono (closes_handle env sid o h refs w1 k1 has) λ _ w2 (k2, only). k2)
        λ _ w2 k2. returns k2

  pub close_dir-Steady : Returns (λ _ w'. Steady sid o refs w') (close_dir c (some h) env w)
  unfolding close_dir load lift fail_with set_error ◌>>=◌ Host.◌>>◌ Host.pure
  close_dir-Steady =
      let (s, here) = held_there c refs.sftps (λ x. count x o.body.sftps) k.sftps there in
      rw here (elim (Bool-cases (is_null_ptr s.sftp)) [
        | inl null ↦ rw null (returns (Steady-host k _))
        | inr live ↦ rw live (closes directories_of _ s here (λ xs. refl) live)
      ])

  pub close_file-Steady : Returns (λ _ w'. Steady sid o refs w') (close_file c (some h) env w)
  unfolding close_file load lift fail_with set_error ◌>>=◌ Host.◌>>◌ Host.pure
  close_file-Steady =
      let (s, here) = held_there c refs.sftps (λ x. count x o.body.sftps) k.sftps there in
      rw here (elim (Bool-cases (is_null_ptr s.sftp)) [
        | inl null ↦ rw null (returns (Steady-host k _))
        | inr live ↦ rw live (closes files_of _ s here (λ xs. refl) live)
      ])
