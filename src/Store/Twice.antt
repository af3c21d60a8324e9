-- ===== src/Store/Twice.antt =====
-- Closing an object again: `Channel_close` of src/channel.c and `Sftp_shutdown` of src/sftp.c.
use pylibssh.Prelude.{
  ◌≡◌, refl, true, List, [], ◌∷◌, map, some, ==_iff, Bool-cases, Option-cases, inl, inr, arith,
}
use pylibssh.Host.{Env, invoke}
use pylibssh.Host.Types.{ObjId, null_ptr, is_null_ptr}
use pylibssh.Host.Calls.{Call, channel_forward_cancel, sftp_close_handle}
use pylibssh.Handles.{Sftp, Listener, Handle}
use pylibssh.Store.Run.{
  Counted, World, Run, ok, fault, out_of_fuel, Cmd, and_then, pure, ◌>>=◌, ◌>>◌, lift, load, modify,
  sftp_slot,
}
use pylibssh.Store.Objects.{close_channel, cancel_listener, close_handle, shutdown_sftp}

-- If the command returns, it does so in such a state.
data After {A : Type 0} (P : World → Type 0) : Run A → Type 0 where
  returned : {a : A} {w : World} → P w → After P (ok a w)
  faulted : After P fault
  ran_out : After P out_of_fuel

>>-After :
    {A B : Type 0} (env : Env) (P : World → Type 0) (m : Cmd A) (k : Cmd B)
    → ((w : World) → After P (k env w))
    → (w : World) → After P ((m >> k) env w)
unfolding ◌>>◌
>>-After {A} env P m k next w = step (m env w)
  where
    step : (r : Run A) → After P (and_then env r (λ _. k))
    step (ok a w') = next w'
    step fault = faulted
    step out_of_fuel = ran_out

again :
    (env : Env) (m : Cmd (Unit {0})) (r : Run (Unit {0}))
    → After (λ w. m env w ≡ ok tt w) r
    → and_then env r (λ _. m) ≡ r
again env m (ok tt w) (returned same) = same
again env m fault faulted = refl
again env m out_of_fuel ran_out = refl

-- `Channel_close` twice is `Channel_close` once, in every state: the same calls, the same result,
-- the same state, and a fault only where the first one has it.
pub close_channel-close_channel :
    (env : Env) (w : World) (id : ObjId)
    → (close_channel id >> close_channel id) env w ≡ close_channel id env w
unfolding close_channel load modify lift invoke pure ◌>>=◌ ◌>>◌
close_channel-close_channel env w id = ground arith

pub shutdown_null :
    (env : Env) (w : World) (id : ObjId) (o : Counted Sftp)
    → w.sftps id ≡ some o
    → is_null_ptr o.body.sftp ≡ true
    → shutdown_sftp id env w ≡ ok tt w
unfolding shutdown_sftp load pure ◌>>=◌
shutdown_null env w id o object null = rw (object, null) refl

module _ (env : Env) (id : ObjId) where
  clear-After :
      (w : World)
      → After
          (λ w'. shutdown_sftp id env w' ≡ ok tt w')
          (modify sftp_slot id (λ s. record s { sftp = null_ptr }) env w)
  unfolding modify
  clear-After w = elim (Option-cases (w.sftps id)) [
    | inl gone ↦ rw gone faulted
    | inr (o, here) ↦ rw here (
        returned (
          shutdown_null env _ id (record o { body = record o.body { sftp = null_ptr } })
            (rw ((==_iff id id).1 refl) refl) refl))
  ]

  shutdown_sftp-After :
      (w : World) → After (λ w'. shutdown_sftp id env w' ≡ ok tt w') (shutdown_sftp id env w)
  unfolding shutdown_sftp load ◌>>=◌ pure
  shutdown_sftp-After w = elim (Option-cases (w.sftps id)) [
    | inl gone ↦ rw gone faulted
    | inr (o, here) ↦ elim (Bool-cases (is_null_ptr o.body.sftp)) [
      | inl null ↦ rw (here, null) (returned (shutdown_null env w id o here null))
      | inr live ↦
          rw (here, live)
            (>>-After env _ _ _ (>>-After env _ _ _ (>>-After env _ _ _ clear-After)) w)
    ]
  ]

-- `Sftp_shutdown` twice is `Sftp_shutdown` once, in every state: the second one calls nothing and
-- changes nothing.
pub shutdown_sftp-shutdown_sftp :
    (env : Env) (w : World) (id : ObjId)
    → (shutdown_sftp id >> shutdown_sftp id) env w ≡ shutdown_sftp id env w
unfolding ◌>>◌
shutdown_sftp-shutdown_sftp env w id =
    again env (shutdown_sftp id) (shutdown_sftp id env w) (shutdown_sftp-After env id w)

-- The calls of a run that returns, newest first, after those made before it.
abbrev pub calls : {A : Type 0} → Run A → List Call
calls (ok a w) = map (λ e. e.call) w.host.log
calls fault = []
calls out_of_fuel = []

-- `Listener_cancel` and `PYLIBSSH2_Sftpfile_close` do not test for a closed object: twice in a
-- row on an object that is there, the second one passes `NULL` to libssh2.
pub cancel_and_close_again :
    (env : Env) (w : World) (id : ObjId) (l : Counted Listener) (h : Counted Handle)
    → w.listeners id ≡ some l
    → w.handles id ≡ some h
    → (calls ((cancel_listener id >> cancel_listener id) env w)
        ≡ channel_forward_cancel null_ptr
          ∷ channel_forward_cancel l.body.listener
          ∷ map (λ e. e.call) w.host.log)
      × (calls ((close_handle id >> close_handle id) env w)
          ≡ sftp_close_handle null_ptr
            ∷ sftp_close_handle h.body.handle
            ∷ map (λ e. e.call) w.host.log)
unfolding cancel_listener close_handle load modify lift invoke ◌>>=◌ ◌>>◌
cancel_and_close_again env w id l h listener handle = ground arith
