-- ===== src/Store/Program/Losses.antt =====
-- Methods of src/session.c and src/channel.c on a channel object that a program has, and the program's
-- own references, keep the counts of references.
use pylibssh.Prelude.{
  ℕ, zero, suc, ◌<◌, ◌≡◌, refl, sym, ap, ◌∙◌, true, Option, none, some, Bool-cases, inl, inr, arith,
}
use pylibssh.Host.{Env}
use pylibssh.Host.Types.{ObjId, is_null_ptr}
use pylibssh.Handles.{Channel}
use pylibssh.Channel.Table.{Method, run_channel}
use pylibssh.Store.Run.{
  Counted, World, pure, ◌>>=◌, ◌>>◌, lift, load, modify, retain, release, destroy, write,
  write-same, channel_slot,
}
use pylibssh.Store.Sets.{contains, discard}
use pylibssh.Store.Objects.{close_channel, dealloc_channel}
use pylibssh.Store.Sessions.{channel_close, discard_from, set_channels}
use pylibssh.Store.Returns.{Returns, returns, mono, chain}
use pylibssh.Store.Entries.{Changed, write-Changed, Changed-Changed, release-last, release-kept}
use pylibssh.Store.Channels.{close_channel-null, close_channel-open}
use pylibssh.Store.Program.{Held, with_ref, without_ref}
use pylibssh.Store.Program.Counts.{
  count, in_set, Live, Counts, Counts-host, Counts-there, Counts-bound, Counts-change,
  with_ref-same, with_ref-other, without_ref-same, without_ref-other, count-contains, count-discard,
  count-discard_ne,
}

module _ (env : Env) (id c : ObjId) (held : Held) (w : World) (k : Counts id held w)
    (has : 0 < held c) where
  pub copies-Counts :
      Returns (λ _ w'. Counts id (with_ref c held) w') ((retain channel_slot c) env w)
  unfolding retain
  copies-Counts =
      let (o, here, l) = Counts-there k c has in
      rw here (
        returns (
          Counts-change k c (with_ref c held) _ k.session _ k.is_there refl refl
            (with_ref-other c held) (λ x differ. refl) (write-Changed w.channels c _)
            record {
              adds_up = omega (arith, with_ref-same c held, l.adds_up);
              is_counted = omega arith;
              is_open = l.is_open;
            }
            (k.once c) (omega arith) (Counts-bound k c o here)))

  pub calls-Counts :
      (m : Method)
      → Returns
          (λ _ w'. Counts id held w')
          ((load channel_slot c >>= λ self. lift (run_channel m self)) env w)
  unfolding load lift ◌>>=◌
  calls-Counts m = let (o, here, l) = Counts-there k c has in rw here (returns (Counts-host k _))

-- The last reference to an object is given back, or one of more.
pub dealloc_channel-Changed :
    (env : Env) (w : World) (c : ObjId) (o : Counted Channel)
    → w.channels c ≡ some o
    → Returns
        (λ _ w'.
          (w' ≡ record w { host = w'.host; channels = w'.channels })
          × Changed w.channels c none w'.channels)
        (dealloc_channel c env w)
unfolding dealloc_channel load destroy pure ◌>>=◌ ◌>>◌
dealloc_channel-Changed env w c o here = elim (Bool-cases (is_null_ptr o.body.channel)) [
  | inl null ↦ simp (here, null) (returns (refl, write-Changed w.channels c none))
  | inr live ↦
      simp (here, live, close_channel-open env w c o here live)
        (returns (refl, Changed-Changed (write-Changed w.channels c _) (write-Changed _ c none)))
]

module _ (env : Env) (id c : ObjId) (held : Held) (w : World) (k : Counts id held w)
    (has : 0 < held c) where
  drops_entry :
      (refs : ℕ) (b : Channel)
      → w.channels c ≡ some (record { refs = refs; body = b })
      → Live (held c) (count c k.session.body.channels) (record { refs = refs; body = b })
      → Returns
          (λ _ w'. Counts id (without_ref c held) w')
          (release channel_slot c (dealloc_channel c) env w)
  drops_entry zero b here l = absurd (omega (arith, l.is_counted))
  drops_entry (suc zero) b here l =
      let last : Option (Counted Channel) = some (record { refs = 0; body = b }) in
      rw (release-last channel_slot env w c (dealloc_channel c) b here) (
        mono (dealloc_channel-Changed env _ c _ (write-same w.channels c last))
          λ _ w' (only, changed).
            Counts-change k c (without_ref c held) w' k.session none
              (ap (λ v. v.sessions id) only ∙ k.is_there) refl refl (without_ref-other c held)
              (λ x differ. refl) (Changed-Changed (write-Changed w.channels c last) changed)
              (omega (arith, without_ref-same c held, l.adds_up, has)) (k.once c)
              (omega (arith, ap (λ v. v.next) only))
              (omega (arith, ap (λ v. v.next) only, Counts-bound k c _ here)))
  drops_entry (suc (suc n)) b here l =
      rw (release-kept channel_slot env w c (dealloc_channel c) b n here) (
        returns (
          Counts-change k c (without_ref c held) _ k.session _ k.is_there refl refl
            (without_ref-other c held) (λ x differ. refl) (write-Changed w.channels c _)
            record {
              adds_up = omega (arith, without_ref-same c held, l.adds_up, has);
              is_counted = omega arith;
              is_open = l.is_open;
            }
            (k.once c) (omega arith) (Counts-bound k c _ here)))

  pub drops-Counts :
      Returns
        (λ _ w'. Counts id (without_ref c held) w')
        (release channel_slot c (dealloc_channel c) env w)
  drops-Counts = let (o, here, l) = Counts-there k c has in drops_entry o.refs o.body here l

  -- `Channel_close` of an object that is not in the set.
  close_channel-Counts :
      in_set c (w.sessions id) ≡ 0 → Returns (λ _ w'. Counts id held w') (close_channel c env w)
  close_channel-Counts out =
      let (o, here, l) = Counts-there k c has in
      elim (Bool-cases (is_null_ptr o.body.channel)) [
        | inl null ↦ rw (close_channel-null env w c o here null) (returns k)
        | inr live ↦ rw (close_channel-open env w c o here live) (
            returns (
              Counts-change k c held _ k.session _ k.is_there refl refl (λ x differ. refl)
                (λ x differ. refl) (write-Changed w.channels c _)
                record {
                  adds_up = l.adds_up;
                  is_counted = l.is_counted;
                  is_open =
                      λ more. absurd (omega (arith, more, sym (ap (in_set c) k.is_there), out));
                }
                (k.once c) (omega arith) (Counts-bound k c o here)))
      ]

  -- The set gives its reference back, which is not the last one.
  forgets :
      (refs : ℕ) (b : Channel)
      → w.channels c ≡ some (record { refs = refs; body = b })
      → Live (held c) (count c k.session.body.channels) (record { refs = refs; body = b })
      → contains c k.session.body.channels ≡ true
      → Returns
          (λ _ w'. Counts id held w' × (in_set c (w'.sessions id) ≡ 0))
          ((set_channels id (discard c k.session.body.channels)
              >> release channel_slot c (dealloc_channel c))
            env w)
  unfolding modify ◌>>◌
  forgets zero b here l present = absurd (omega (arith, l.is_counted))
  forgets (suc zero) b here l present =
      absurd (omega (arith, l.adds_up, has, count-discard c k.session.body.channels present))
  forgets (suc (suc n)) b here l present =
      let cs = k.session.body.channels in
      let rest = discard c cs in
      let o' = record k.session { body = record k.session.body { channels = rest } } in
      let w1 = record w { sessions = write w.sessions id (some o') } in
      let none_left : count c rest ≡ 0 = omega (arith, count-discard c cs present, k.once c) in
      rw (k.is_there, release-kept channel_slot env w1 c (dealloc_channel c) b n here)
        (returns (
          Counts-change k c held _ o' _ (write-same w.sessions id (some o')) refl refl
              (λ x differ. refl) (λ x. count-discard_ne x c cs) (write-Changed w.channels c _)
              record {
                adds_up = omega (arith, l.adds_up, count-discard c cs present, none_left);
                is_counted = omega arith;
                is_open = λ more. absurd (omega (arith, more, none_left));
              }
              (omega (arith, none_left)) (omega arith) (Counts-bound k c _ here),
          ap (in_set c) (write-same w.sessions id (some o')) ∙ none_left,
        ))

  pub discards :
      Returns
        (λ _ w'. Counts id held w' × (in_set c (w'.sessions id) ≡ 0))
        (discard_from k.session.body.channels
          (set_channels id)
          c
          (release channel_slot c (dealloc_channel c))
          env
          w)
  unfolding discard_from pure
  discards = elim (Bool-cases (contains c k.session.body.channels)) [
    | inl present ↦
        let (o, here, l) = Counts-there k c has in rw present (forgets o.refs o.body here l present)
    | inr absent ↦
        rw absent
          (returns (k, ap (in_set c) k.is_there ∙ count-contains c k.session.body.channels absent))
  ]

pub closes-Counts :
    (env : Env) (id c : ObjId) (held : Held) (w : World)
    → Counts id held w
    → 0 < held c
    → Returns (λ _ w'. Counts id held w') (channel_close id (some c) env w)
unfolding channel_close load pure ◌>>=◌
closes-Counts env id c held w k has = rw k.is_there (
    chain env _ _ w (discards env id c held w k has) λ _ w1 (k1, out).
      chain env _ _ w1 (close_channel-Counts env id c held w1 k1 has out) λ _ w2 k2. returns k2)
