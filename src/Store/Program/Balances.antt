-- ===== src/Store/Program/Balances.antt =====
-- Methods on channel objects that a program has keep the ledger of what libssh2 has given.
use mathlib.Core.List.{Perm, perm_append_comm, append-nil}
use mathlib.Core.List.Perm
use pylibssh.Prelude.{
  ℕ, zero, suc, ◌<◌, ◌≡◌, refl, sym, subst, none, some, List, [], ◌∷◌, ◌++◌, Bool-cases, inl, inr,
  arith,
}
use pylibssh.Host.{Env}
use pylibssh.Host.Types.{ObjId, is_null_ptr, null_ptr}
use pylibssh.Handles.{Channel}
use pylibssh.Channel.Table.{Method, run_channel}
use pylibssh.Channel.Scope.{run_channel-Uses}
use pylibssh.Store.Run.{
  Counted, World, Run, ok, fault, out_of_fuel, pure, ◌>>=◌, ◌>>◌, lift, load, modify, retain,
  release, destroy, write, write-same, channel_slot,
}
use pylibssh.Store.Sets.{contains}
use pylibssh.Store.Objects.{close_channel, dealloc_channel}
use pylibssh.Store.Sessions.{channel_close, discard_from, set_channels}
use pylibssh.Store.Returns.{Returns, returns, chain}
use pylibssh.Store.Resources.{Resource, channel, ended}
use pylibssh.Store.Entries.{write-Changed, Changed-Changed, release-last, release-kept}
use pylibssh.Store.Channels.{close_channel-open, close_channel-null}
use pylibssh.Store.Program.{Held}
use pylibssh.Store.Program.Counts.{Counts, Counts-there, Counts-bound}
use pylibssh.Store.Program.Losses.{discards}
use pylibssh.Store.Program.Ledger.{Balance, Balance-change, Balance-host}

given_back : (r : Resource) (rs : List Resource) → Perm ((r ∷ rs) ++ []) (rs ++ (r ∷ []))
given_back r rs =
    subst (λ l. Perm l (rs ++ (r ∷ []))) (sym (append-nil (r ∷ rs))) (perm_append_comm (r ∷ []) rs)

-- The references to an object change.
Balance-refs :
    (w : World) (c refs refs' : ℕ) (b : Channel)
    → w.channels c ≡ some (record { refs = refs; body = b })
    → c < w.next
    → Balance w
    → Balance
        (record w { channels = write w.channels c (some (record { refs = refs'; body = b })) })
Balance-refs w c refs refs' b here bound =
    Balance-change w _ c (some (record { refs = refs'; body = b })) bound refl
      (write-Changed w.channels c _) refl (rw here (Perm.refl _))

module _ (env : Env) (w : World) (c : ObjId) (o : Counted Channel) (here : w.channels c ≡ some o)
    (bound : c < w.next) (b : Balance w) where
  close_channel-Balance : Returns (λ _ w'. Balance w') (close_channel c env w)
  close_channel-Balance = elim (Bool-cases (is_null_ptr o.body.channel)) [
    | inl null ↦ rw (close_channel-null env w c o here null) (returns b)
    | inr live ↦ rw (close_channel-open env w c o here live) (
        returns (
          Balance-change w _ c (some (record o { body = record o.body { channel = null_ptr } }))
            bound refl (write-Changed w.channels c _) refl
            (rw (here, live) (given_back (channel o.body.channel) (ended w.host.log))) b))
  ]

  dealloc_channel-Balance : Returns (λ _ w'. Balance w') (dealloc_channel c env w)
  unfolding dealloc_channel load destroy pure ◌>>=◌ ◌>>◌
  dealloc_channel-Balance = elim (Bool-cases (is_null_ptr o.body.channel)) [
    | inl null ↦
        simp (here, null)
          (returns (
            Balance-change w _ c none bound refl (write-Changed w.channels c none) refl
              (rw (here, null) (Perm.refl _)) b))
    | inr live ↦
        simp (here, live, close_channel-open env w c o here live)
          (returns (
            Balance-change w _ c none bound refl
              (Changed-Changed (write-Changed w.channels c _) (write-Changed _ c none)) refl
              (rw (here, live) (given_back (channel o.body.channel) (ended w.host.log))) b))
  ]

releases :
    (env : Env) (w : World) (c refs : ℕ) (body : Channel)
    → w.channels c ≡ some (record { refs = refs; body = body })
    → 0 < refs
    → c < w.next
    → Balance w
    → Returns (λ _ w'. Balance w') (release channel_slot c (dealloc_channel c) env w)
releases env w c zero body here counted bound b = absurd (omega (arith, counted))
releases env w c (suc zero) body here counted bound b =
    rw (release-last channel_slot env w c (dealloc_channel c) body here) (
      dealloc_channel-Balance env _ c (record { refs = 0; body = body }) (write-same w.channels c _)
        bound (Balance-refs w c 1 0 body here bound b))
releases env w c (suc (suc n)) body here counted bound b =
    rw (release-kept channel_slot env w c (dealloc_channel c) body n here)
      (returns (Balance-refs w c (suc (suc n)) (suc n) body here bound b))

module _ (env : Env) (id c : ObjId) (held : Held) (w : World) (k : Counts id held w)
    (has : 0 < held c) (b : Balance w) where
  pub copies-Balance : Returns (λ _ w'. Balance w') ((retain channel_slot c) env w)
  unfolding retain
  copies-Balance =
      let (o, here, l) = Counts-there k c has in
      rw here
        (returns (Balance-refs w c o.refs (suc o.refs) o.body here (Counts-bound k c o here) b))

  pub calls-Balance :
      (m : Method)
      → Returns
          (λ _ w'. Balance w')
          ((load channel_slot c >>= λ self. lift (run_channel m self)) env w)
  unfolding load lift ◌>>=◌
  calls-Balance m =
      let (o, here, l) = Counts-there k c has in
      rw here (
        returns (
          Balance-host env o.body.session o.body.channel (run_channel m o.body) w
            (run_channel-Uses env o.body m) b))

  pub drops-Balance :
      Returns (λ _ w'. Balance w') (release channel_slot c (dealloc_channel c) env w)
  drops-Balance =
      let (o, here, l) = Counts-there k c has in
      releases env w c o.refs o.body here l.is_counted (Counts-bound k c o here) b

  discards-Balance :
      Returns
        (λ _ w'. Balance w')
        (discard_from k.session.body.channels
          (set_channels id)
          c
          (release channel_slot c (dealloc_channel c))
          env
          w)
  unfolding discard_from pure modify ◌>>◌
  discards-Balance = elim (Bool-cases (contains c k.session.body.channels)) [
    | inl present ↦
        let (o, here, l) = Counts-there k c has in
        rw (present, k.is_there)
          (releases env _ c o.refs o.body here l.is_counted (Counts-bound k c o here)
            (record { lost = b.lost; adds_up = b.adds_up }))
    | inr absent ↦ rw absent (returns b)
  ]

both :
    {A : Type 0} {P Q : A → World → Type 0} (r : Run A)
    → Returns P r
    → Returns Q r
    → Returns (λ a w. P a w × Q a w) r
both (ok a w) (returns p) (returns q) = returns (p, q)
both fault x _ = elim x [ ]
both out_of_fuel x _ = elim x [ ]

pub closes-Balance :
    (env : Env) (id c : ObjId) (held : Held) (w : World)
    → Counts id held w
    → 0 < held c
    → Balance w
    → Returns (λ _ w'. Balance w') (channel_close id (some c) env w)
unfolding channel_close load pure ◌>>=◌
closes-Balance env id c held w k has b = rw k.is_there (
    chain env _ _ w
      (both _ (discards env id c held w k has) (discards-Balance env id c held w k has b))
      λ _ w1 (kept, b1).
        let k1 = kept.0 in
        let (o, here, l) = Counts-there k1 c has in
        chain env _ _ w1 (close_channel-Balance env w1 c o here (Counts-bound k1 c o here) b1)
          λ _ w2 b2. returns b2)
