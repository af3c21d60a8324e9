-- ===== src/Store/Client/Gains.antt =====
-- The methods of src/session.c, src/listener.c and src/sftp.c that make objects keep the references as
-- many as there are.
use pylibssh.Prelude.{
  ℕ, suc, ◌+◌, ◌≡◌, ◌≢◌, refl, ap, ◌∙◌, subst, Bool, Option, none, some, List, ◌∷◌, Bool-cases, inl,
  inr, arith,
}
use pylibssh.Host
use pylibssh.Host.{Host, Env, invoke, Io, set_error, fail_with}
use pylibssh.Host.Types.{ObjId, is_null_ptr}
use pylibssh.Host.Calls.{Kind, py_object_new}
use pylibssh.Handles.{Session, Channel, Listener}
use pylibssh.Store.Run.{
  Counted, Table, World, Cmd, Slot, pure, ◌>>=◌, ◌>>◌, lift, modify, retain, write, write-same,
  channel_slot, listener_slot,
}
use pylibssh.Store.Opening.{new_object, insert_object, track_channel, track_listener}
use pylibssh.Store.Returns.{Returns, returns}
use pylibssh.Store.Entries.{Changed, write-Changed, Changed-Changed}
use pylibssh.Store.Channels.{track_channel-object}
use pylibssh.Store.Program.{Held, gain, with_ref}
use pylibssh.Store.Program.Counts.{count, with_ref-same, with_ref-other}
use pylibssh.Store.Client.Tally.{Tallied, Tally, Tally-change}
use pylibssh.Store.Client.State.{
  Refs, Steady, Steady-later, Steady-session, Steady-channels, Steady-listeners,
}
use pylibssh.Store.Client.Discarding.{StillSteady}

-- The state with a new object.
abbrev pub inserted : {A : Type 0} → Slot A → A → World → World
inserted slot b w =
    record (slot.update w (write (slot.table w) w.next (some (record { refs = 1; body = b })))) {
      next = suc w.next;
    }

-- What follows on a function `_New`, with its object or without one.
pub new_object-Returns :
    {A B : Type 0} {Q : B → World → Type 0} (slot : Slot A) (env : Env) (w : World) (kind : Kind)
    (missing : Bool) (body : A) (next : Option ObjId → Cmd B)
    → ((h : Host) → Returns Q (next none env (record w { host = h })))
    → ((h : Host) → Returns Q (next (some w.next) env (inserted slot body (record w { host = h }))))
    → Returns Q ((new_object slot kind missing body >>= next) env w)
unfolding new_object insert_object lift invoke fail_with set_error pure ◌>>=◌ ◌>>◌ Host.pure
    Host.◌>>◌
new_object-Returns slot env w kind missing body next without made = elim (Bool-cases missing) [
  | inl none_made ↦ simp (none_made) (without w.host)
  | inr there ↦ elim (Bool-cases (is_null_ptr (env.reply w.host.log (py_object_new kind)).ptr)) [
    | inl no_memory ↦ simp (there, no_memory) (without _)
    | inr memory ↦ simp (there, memory) (made _)
  ]
]

-- A number that is free gets an object with as many references as are new.
pub grown :
    {A : Type 0} {Stays : ObjId → A → Type 0} (table table' : Table A) (next m : ObjId)
    (r r' : Held) (n : ObjId → ℕ) (b : A)
    → Tally Stays table (λ x. r x + n x) (suc next)
    → table next ≡ none
    → Changed table next (some (record { refs = suc m; body = b })) table'
    → ((x : ObjId) → x ≢ next → r' x ≡ r x)
    → r' next ≡ suc m + r next
    → Tally Stays table' (λ x. r' x + n x) (suc next)
grown {Stays = Stays} table table' next m r r' n b t gone changed same more =
    let free : r next + n next ≡ 0 =
      subst (Tallied (Stays next) (r next + n next)) gone (t.entries next) in
    Tally-change t next (some (record { refs = suc m; body = b })) table' _ changed (omega arith)
      (λ x other. ap (λ y. y + n x) (same x other))
      (omega (arith, more, free), λ e. absurd (omega (arith, e, more)))

-- Two references more, and three.
pub with_refs-other : (c : ObjId) (r : Held) (x : ObjId) → x ≢ c → with_ref c (with_ref c r) x ≡ r x
with_refs-other c r x other = with_ref-other c (with_ref c r) x other ∙ with_ref-other c r x other

pub with_refs-same : (c : ObjId) (r : Held) → with_ref c (with_ref c r) c ≡ 2 + r c
with_refs-same c r = omega (arith, with_ref-same c r, with_ref-same c (with_ref c r))

-- A set takes one of the references.
pub given :
    (x c : ObjId) (r : Held) (xs : List ObjId)
    → r x + count x (c ∷ xs) ≡ with_ref c r x + count x xs
given x c r xs = ground arith

module _ (sid : ObjId) (o : Counted Session) (refs : Refs) (w : World)
    (k : Steady sid o refs w) where
  pub new_channel-Steady :
      (b : Channel)
      → Steady sid o
          (record refs { channels = with_ref w.next refs.channels })
          (inserted channel_slot b w)
  new_channel-Steady b = Steady-channels (Steady-later k) w.host _ (with_ref w.next refs.channels) (
      grown w.channels _ w.next 0 refs.channels (with_ref w.next refs.channels) _ b
        (Steady-later k).channels (k.channels.fresh w.next (omega arith))
        (write-Changed w.channels w.next _) (with_ref-other w.next refs.channels)
        (omega (arith, with_ref-same w.next refs.channels)))

  pub track_channel-Steady :
      (env : Env) (b : Channel)
      → Returns
          (λ v w'. StillSteady sid (record refs { channels = gain v refs.channels }) w')
          (track_channel sid (some w.next) env (inserted channel_slot b w))
  track_channel-Steady env b =
      let c = w.next in
      let r = with_ref c (with_ref c refs.channels) in
      let table = write w.channels c (some (record { refs = 1; body = b })) in
      rw
        (track_channel-object env (inserted channel_slot b w) sid o c
          (record { refs = 1; body = b }) k.is_there (write-same w.channels c _))
        (returns (
          _,
          Steady-session
              (Steady-channels (Steady-later k) w.host _ r (
                grown w.channels _ c 1 refs.channels r _ b (Steady-later k).channels
                  (k.channels.fresh c (omega arith))
                  (Changed-Changed (write-Changed w.channels c _) (write-Changed table c _))
                  (with_refs-other c refs.channels) (with_refs-same c refs.channels)))
              o.body.sftps (c ∷ o.body.channels) o.body.listeners refs.sftps
              (with_ref c refs.channels) refs.listeners (λ x. refl)
              (λ x. given x c (with_ref c refs.channels) o.body.channels) λ x. refl,
        ))

  pub track_listener-Steady :
      (env : Env) (b : Listener)
      → Returns
          (λ v w'. StillSteady sid (record refs { listeners = gain v refs.listeners }) w')
          (track_listener sid (some w.next) env (inserted listener_slot b w))
  unfolding track_listener modify retain pure ◌>>◌
  track_listener-Steady env b =
      let c = w.next in
      let r = with_ref c (with_ref c refs.listeners) in
      let table = write w.listeners c (some (record { refs = 1; body = b })) in
      simp
        (
          k.is_there,
          write-same w.listeners c (some (record { refs = 1; body = b })),
          modify,
          retain,
        )
        (returns (
          _,
          Steady-session
              (Steady-listeners (Steady-later k) w.host _ r (
                grown w.listeners _ c 1 refs.listeners r _ b (Steady-later k).listeners
                  (k.listeners.fresh c (omega arith))
                  (Changed-Changed (write-Changed w.listeners c _) (write-Changed table c _))
                  (with_refs-other c refs.listeners) (with_refs-same c refs.listeners)))
              o.body.sftps o.body.channels (c ∷ o.body.listeners) refs.sftps refs.channels
              (with_ref c refs.listeners) (λ x. refl) (λ x. refl)
              (λ x. given x c (with_ref c refs.listeners) o.body.listeners),
        ))
