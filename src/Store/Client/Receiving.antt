-- ===== src/Store/Client/Receiving.antt =====
-- `scp_recv` and `startup` of src/session.c keep the references as many as there are.
use pylibssh.Prelude.{
  ℤ, String, is_negative, ◌≡◌, refl, Bool, true, false, Option, none, some, ◌∷◌, Bool-cases, inl,
  inr, arith, if◌then◌else◌,
}
use pylibssh.Host
use pylibssh.Host.{Host, Env, invoke, Io, set_error, fail_with}
use pylibssh.Host.Types.{ObjId, Ptr, Value, null, object, object_and_stat, StatDict}
use pylibssh.Handles.{Session, Channel}
use pylibssh.Store.Run.{
  Counted, World, pure, ◌>>=◌, ◌>>◌, lift, load, modify, retain, write, write-same, channel_slot,
}
use pylibssh.Store.Startup.{started, call_startup, startup}
use pylibssh.Store.Opening.{new_channel, recv, recv_result, add_channel}
use pylibssh.Store.Returns.{Returns, returns, chain}
use pylibssh.Store.Entries.{write-Changed, Changed-Changed}
use pylibssh.Store.Program.{with_ref}
use pylibssh.Store.Program.Counts.{with_ref-same}
use pylibssh.Store.Client.State.{
  Refs, Steady, Steady-host, Steady-later, Steady-channels, Steady-session,
}
use pylibssh.Store.Client.Steps.{copies_channel}
use pylibssh.Store.Client.Discarding.{StillSteady}
use pylibssh.Store.Client.Gains.{
  inserted, new_object-Returns, grown, with_refs-other, with_refs-same, given,
}
use pylibssh.Store.Client.{gain_twice}

module _ (env : Env) (sid : ObjId) (o : Counted Session) (refs : Refs) where
  adds_channel :
      (w : World) (b : Channel)
      → Steady sid o refs w
      → Returns
          (λ _ w'. StillSteady sid (record refs { channels = with_ref w.next refs.channels }) w')
          (add_channel sid w.next env (inserted channel_slot b w))
  unfolding add_channel modify retain ◌>>◌
  adds_channel w b k =
      let c = w.next in
      let r = with_ref c (with_ref c refs.channels) in
      let table = write w.channels c (some (record { refs = 1; body = b })) in
      simp
        (k.is_there, write-same w.channels c (some (record { refs = 1; body = b })), modify, retain)
        (returns (
          _,
          Steady-session
              (Steady-channels (Steady-later k) w.host _ r (
                grown w.channels _ c 1 refs.channels r _ b (Steady-later k).channels
                  (k.channels.fresh c (omega arith))
                  (Changed-Changed (write-Changed w.channels c _) (write-Changed table c _))
                  (with_refs-other c refs.channels) (with_refs-same c refs.channels)))
              o.body.sftps (c ∷ o.body.channels) o.body.listeners refs.sftps
              (with_ref c refs.channels) refs.listeners (λ x. refl)
              (λ x. given x c (with_ref c refs.channels) o.body.channels) λ x. refl,
        ))

  receives :
      (w : World) (b : Channel) (stat : StatDict)
      → Steady sid o refs w
      → Returns
          (λ v w'. StillSteady sid (record refs { channels = gain_twice v refs.channels }) w')
          (recv_result sid
            (some w.next)
            (object_and_stat (object w.next) stat)
            env
            (inserted channel_slot b w))
  unfolding recv_result pure
  receives w b stat k =
      chain env _ _ (inserted channel_slot b w) (adds_channel w b k) λ _ w1 (o1, k1).
        chain env _ _ w1
          (copies_channel env sid o1 w.next _ w1 k1
            (omega (arith, with_ref-same w.next refs.channels)))
          λ _ w2 k2. returns (o1, k2)

  receiving :
      (w : World) (session p : Ptr) (stat : StatDict) (report : Io Value)
      → Steady sid o refs w
      → ((h : Host) → (report env h).0 ≡ null)
      → (missing : Bool)
      → Returns
          (λ v w'. StillSteady sid (record refs { channels = gain_twice v refs.channels }) w')
          ((if missing then lift report else (do
            chan ← new_channel session p
            recv_result sid chan
                (elim chan [ none ↦ null | some item ↦ object_and_stat (object item) stat ])))
            env w)
  unfolding recv_result pure lift
  receiving w session p stat report k fails true = returns (o, rw (fails w.host) (Steady-host k _))
  receiving w session p stat report k fails false =
      new_object-Returns channel_slot env w _ _ _
        (λ chan.
          recv_result sid chan
            (elim chan [ none ↦ null | some item ↦ object_and_stat (object item) stat ]))
        (λ h. returns (o, Steady-host k h)) λ h. receives _ _ stat (Steady-host k h)

  pub recv-Steady :
      (w : World) (args : Option String)
      → Steady sid o refs w
      → Returns
          (λ v w'. StillSteady sid (record refs { channels = gain_twice v refs.channels }) w')
          (recv sid args env w)
  unfolding recv load invoke lift fail_with set_error ◌>>=◌ Host.◌>>◌ Host.pure
  recv-Steady w none k = returns (o, Steady-host k _)
  recv-Steady w (some path) k =
      rw k.is_there (receiving _ o.body.session _ _ _ (Steady-host k _) (λ h. refl) _)

  starts :
      (self : Session) (w : World) (rc : ℤ)
      → Steady sid o refs w
      → Returns (λ v w'. StillSteady sid refs w') (started sid self rc env w)
  unfolding started modify lift pure ◌>>◌
  starts self w rc k = elim (Bool-cases (is_negative rc)) [
    | inl failed ↦ rw failed (returns (o, Steady-host k _))
    | inr fine ↦
        rw (fine, k.is_there)
          (returns (
            _,
            record {
              is_there = write-same w.sessions sid _;
              channels = k.channels;
              listeners = k.listeners;
              sftps = k.sftps;
              handles = k.handles;
              emptied = k.emptied;
            },
          ))
  ]

  calls_startup :
      (w : World) (fd : ℤ)
      → Steady sid o refs w
      → Returns (λ v w'. StillSteady sid refs w') (call_startup sid fd env w)
  unfolding call_startup load lift invoke ◌>>=◌
  calls_startup w fd k = rw k.is_there (starts _ _ _ (Steady-host k _))

module _ (env : Env) (sid : ObjId) (o : Counted Session) (refs : Refs) where
  pub startup-Steady :
      (w : World) (args : Option ℤ)
      → Steady sid o refs w
      → Returns (λ v w'. StillSteady sid refs w') (startup sid args env w)
  unfolding startup modify lift fail_with set_error ◌>>=◌ ◌>>◌ Host.◌>>◌ Host.pure
  startup-Steady w none k = returns (o, Steady-host k _)
  startup-Steady w (some socket) k =
      let o' = record o { body = record o.body { socket = some socket } } in
      let k' : Steady sid o' refs (record w { sessions = write w.sessions sid (some o') }) =
        record {
          is_there = write-same w.sessions sid _;
          channels = k.channels;
          listeners = k.listeners;
          sftps = k.sftps;
          handles = k.handles;
          emptied = k.emptied;
        } in
      rw k.is_there (calls_startup env sid o' refs _ _ (Steady-host k' _))
