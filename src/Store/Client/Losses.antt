-- ===== src/Store/Client/Losses.antt =====
-- A reference to an object of src/channel.c, src/listener.c, src/sftpfile.c or src/sftpdir.c is copied
-- or given back, and the object is closed.
use pylibssh.Prelude.{
  ℕ, zero, suc, ◌+◌, ◌<◌, ◌≡◌, refl, sym, ap, ◌∙◌, Option, none, some, Bool-cases, inl, inr, arith,
}
use pylibssh.Host.{Env}
use pylibssh.Host.Types.{ObjId, is_null_ptr}
use pylibssh.Handles.{Channel, Listener, Handle}
use pylibssh.Store.Run.{
  Counted, World, pure, ◌>>=◌, ◌>>◌, lift, load, modify, release, destroy, write, write-same,
  channel_slot, listener_slot,
}
use pylibssh.Store.Objects.{dealloc_channel, cancel_listener, dealloc_listener}
use pylibssh.Store.Returns.{Returns, returns, mono}
use pylibssh.Store.Entries.{
  Changed, write-Changed, Changed-Changed, release-last, release-kept, left_over,
}
use pylibssh.Store.Program.{Held, with_ref}
use pylibssh.Store.Program.Counts.{with_ref-same, with_ref-other}
use pylibssh.Store.Program.Losses.{dealloc_channel-Changed}
use pylibssh.Store.Files.Losses.{given_up}
use pylibssh.Store.Client.State.{IsClosed}
use pylibssh.Store.Client.Tally.{Tallied, Tally, Tally-there, Tally-bound, Tally-change}

abbrev ChannelsOnly : World → World → Type 0
ChannelsOnly w w' = w' ≡ record w { host = w'.host; channels = w'.channels }

abbrev ListenersOnly : World → World → Type 0
ListenersOnly w w' = w' ≡ record w { host = w'.host; listeners = w'.listeners }

pub release-channel :
    (env : Env) (w : World) (c n : ℕ) (b : Channel)
    → w.channels c ≡ some (record { refs = suc n; body = b })
    → Returns
        (λ _ w'. ChannelsOnly w w' × Changed w.channels c (left_over n b) w'.channels)
        (release channel_slot c (dealloc_channel c) env w)
release-channel env w c zero b here =
    let last : Option (Counted Channel) = some (record { refs = 0; body = b }) in
    rw (release-last channel_slot env w c (dealloc_channel c) b here) (
      mono (dealloc_channel-Changed env _ c _ (write-same w.channels c last))
        λ _ w' (only, changed). (only, Changed-Changed (write-Changed w.channels c last) changed))
release-channel env w c (suc n) b here =
    rw (release-kept channel_slot env w c (dealloc_channel c) b n here)
      (returns (refl, write-Changed w.channels c _))

dealloc_listener-Changed :
    (env : Env) (w : World) (c : ObjId) (o : Counted Listener)
    → w.listeners c ≡ some o
    → Returns
        (λ _ w'. ListenersOnly w w' × Changed w.listeners c none w'.listeners)
        (dealloc_listener c env w)
unfolding dealloc_listener cancel_listener load modify lift destroy pure ◌>>=◌ ◌>>◌
dealloc_listener-Changed env w c o here = elim (Bool-cases (is_null_ptr o.body.listener)) [
  | inl null ↦ simp (here, null, modify) (returns (refl, write-Changed w.listeners c none))
  | inr live ↦
      simp (here, live, modify)
        (returns (refl, Changed-Changed (write-Changed w.listeners c _) (write-Changed _ c none)))
]

pub release-listener :
    (env : Env) (w : World) (c n : ℕ) (b : Listener)
    → w.listeners c ≡ some (record { refs = suc n; body = b })
    → Returns
        (λ _ w'. ListenersOnly w w' × Changed w.listeners c (left_over n b) w'.listeners)
        (release listener_slot c (dealloc_listener c) env w)
release-listener env w c zero b here =
    let last : Option (Counted Listener) = some (record { refs = 0; body = b }) in
    rw (release-last listener_slot env w c (dealloc_listener c) b here) (
      mono (dealloc_listener-Changed env _ c _ (write-same w.listeners c last))
        λ _ w' (only, changed). (only, Changed-Changed (write-Changed w.listeners c last) changed))
release-listener env w c (suc n) b here =
    rw (release-kept listener_slot env w c (dealloc_listener c) b n here)
      (returns (refl, write-Changed w.listeners c _))

pub Tallied-given_up :
    (n : ℕ) (c : ObjId) (b : Handle) → Tallied (IsClosed c) n (given_up (suc n) b)
Tallied-given_up zero c b = elim (Bool-cases (is_null_ptr b.handle)) [
  | inl null ↦ rw null (refl, λ e. null)
  | inr live ↦ rw live refl
]
Tallied-given_up (suc n) c b = (refl, λ e. absurd (omega (arith, e)))

-- The references to one object are one more.
with_ref-more : (c : ObjId) (r : Held) (n : ObjId → ℕ) → with_ref c r c + n c ≡ suc (r c + n c)
with_ref-more c r n = omega (arith, with_ref-same c r)

-- A reference that is given back: `refs` with one more, and then `refs`.
abbrev Entry : {A : Type 0} → ℕ → (c : ObjId) → (ObjId → Option (Counted A)) → Type 0
Entry {A} n c table = (b : A) × (table c ≡ some (record { refs = n; body = b }))

module _ {A : Type 0} {Stays : ObjId → A → Type 0} {table : ObjId → Option (Counted A)}
    {next : ObjId} (c : ObjId) (r : Held) (n : ObjId → ℕ)
    (t : Tally Stays table (λ x. with_ref c r x + n x) next) where
  pub one_more : (b : A) × (table c ≡ some (record { refs = suc (r c + n c); body = b }))
  one_more =
      let more = with_ref-more c r n in
      let (b, here) = Tally-there t c (omega (arith, more)) in
      (b, here ∙ ap (λ m. some (record { refs = m; body = b })) more)

  pub one_less :
      (e : Option (Counted A)) (table' : ObjId → Option (Counted A))
      → Changed table c e table'
      → Tallied (Stays c) (r c + n c) e
      → Tally Stays table' (λ x. r x + n x) next
  one_less e table' changed entry =
      let (b, here) = one_more in
      Tally-change t c e table' _ changed (Tally-bound t c _ here)
        (λ x other. ap (λ m. m + n x) (sym (with_ref-other c r x other))) entry

-- The entry of an object that is there changes, but not its references.
module _ {A : Type 0} {Stays : ObjId → A → Type 0} {table : ObjId → Option (Counted A)}
    {next : ObjId} (c : ObjId) (r n : ObjId → ℕ) (t : Tally Stays table (λ x. r x + n x) next)
    (has : 0 < r c) where
  pub held_there : (b : A) × (table c ≡ some (record { refs = r c + n c; body = b }))
  held_there = Tally-there t c (omega (arith, has))

  pub rebodied :
      (b : A)
      → Tally Stays
          (write table c (some (record { refs = r c + n c; body = b })))
          (λ x. r x + n x)
          next
  rebodied b =
      let (b', here) = held_there in
      Tally-change t c _ _ _ (write-Changed table c _) (Tally-bound t c _ here) (λ x other. refl)
        (refl, λ e. absurd (omega (arith, e, has)))

  pub copied :
      (b : A)
      → Tally Stays
          (write table c (some (record { refs = suc (r c + n c); body = b })))
          (λ x. with_ref c r x + n x)
          next
  copied b =
      let (b', here) = held_there in
      Tally-change t c _ _ _ (write-Changed table c _) (Tally-bound t c _ here)
        (λ x other. ap (λ m. m + n x) (with_ref-other c r x other))
        (sym (with_ref-more c r n), λ e. absurd (omega (arith, e, with_ref-more c r n)))
