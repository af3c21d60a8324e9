-- ===== src/Store/Client/Opens.antt =====
-- The methods of src/session.c and src/listener.c that make objects, and `startup`, keep the references
-- as many as there are.
use pylibssh.Prelude.{
  ℕ, ℤ, String, ◌<◌, ◌≡◌, refl, Bool, true, false, Option, none, some, if◌then◌else◌,
}
use pylibssh.Host
use pylibssh.Host.{Host, Env, invoke, Io, set_error, fail_with}
use pylibssh.Host.Types.{ObjId, Ptr, Value, null}
use pylibssh.Report.Null.{report_null-null}
use pylibssh.Handles.{Session}
use pylibssh.Store.Run.{
  Counted, World, Cmd, pure, ◌>>=◌, lift, load, channel_slot, listener_slot, sftp_slot,
}
use pylibssh.Store.Opening
use pylibssh.Store.Opening.{
  new_channel, new_listener, new_sftp, track_channel, track_listener, track_sftp, open_session,
  init_sftp, forward_listen, BoundToNull, accept, to_value,
}
use pylibssh.Store.Returns.{Returns, returns}
use pylibssh.Store.Program.{gain}
use pylibssh.Store.Client.State.{Refs, Steady, Steady-host}
use pylibssh.Store.Client.Discarding.{StillSteady}
use pylibssh.Store.Client.Losses.{held_there}
use pylibssh.Store.Program.Counts.{count}
use pylibssh.Store.Client.Gains.{
  new_object-Returns, new_channel-Steady, track_channel-Steady, track_listener-Steady,
}
use pylibssh.Store.Client.Tracks.{track_sftp-Steady}

module _ (env : Env) (sid : ObjId) (o : Counted Session) (refs : Refs) where
  -- The ends of the methods, where `report` is the error block and `made` the other end.
  ending :
      (grown : Value → Refs) (w : World) (report : Io Value) (made : Cmd Value)
      → grown null ≡ refs
      → Steady sid o refs w
      → ((h : Host) → (report env h).0 ≡ null)
      → Returns (λ v w'. StillSteady sid (grown v) w') (made env w)
      → (missing : Bool)
      → Returns
          (λ v w'. StillSteady sid (grown v) w')
          ((if missing then lift report else made) env w)
  unfolding lift
  ending grown w report made same k fails rest true =
      returns (o, rw (fails w.host, same) (Steady-host k _))
  ending grown w report made same k fails rest false = rest

  channels_made :
      (w : World) (session p : Ptr) (report : Io Value)
      → Steady sid o refs w
      → ((h : Host) → (report env h).0 ≡ null)
      → (missing : Bool)
      → Returns
          (λ v w'. StillSteady sid (record refs { channels = gain v refs.channels }) w')
          ((if missing then lift report else (new_channel session p >>= track_channel sid)) env w)
  unfolding track_channel pure
  channels_made w session p report k fails =
      ending (λ v. record refs { channels = gain v refs.channels }) w report
        (new_channel session p >>= track_channel sid) refl k fails
        (new_object-Returns channel_slot env w _ _ _ (track_channel sid)
          (λ h. returns (o, Steady-host k h))
          λ h. track_channel-Steady sid o refs _ (Steady-host k h) env _)

  listeners_made :
      (w : World) (session p : Ptr) (report : Io Value)
      → Steady sid o refs w
      → ((h : Host) → (report env h).0 ≡ null)
      → (missing : Bool)
      → Returns
          (λ v w'. StillSteady sid (record refs { listeners = gain v refs.listeners }) w')
          ((if missing then lift report else (new_listener session p >>= track_listener sid)) env w)
  unfolding track_listener pure
  listeners_made w session p report k fails =
      ending (λ v. record refs { listeners = gain v refs.listeners }) w report
        (new_listener session p >>= track_listener sid) refl k fails
        (new_object-Returns listener_slot env w _ _ _ (track_listener sid)
          (λ h. returns (o, Steady-host k h))
          λ h. track_listener-Steady sid o refs _ (Steady-host k h) env _)

  sftps_made :
      (w : World) (session p : Ptr) (report : Io Value)
      → Steady sid o refs w
      → ((h : Host) → (report env h).0 ≡ null)
      → (missing : Bool)
      → Returns
          (λ v w'. StillSteady sid (record refs { sftps = gain v refs.sftps }) w')
          ((if missing then lift report else (new_sftp session p >>= track_sftp sid)) env w)
  unfolding track_sftp pure
  sftps_made w session p report k fails =
      ending (λ v. record refs { sftps = gain v refs.sftps }) w report
        (new_sftp session p >>= track_sftp sid) refl k fails
        (new_object-Returns sftp_slot env w _ _ _ (track_sftp sid)
          (λ h. returns (o, Steady-host k h))
          λ h. track_sftp-Steady sid o refs _ (Steady-host k h) env _ refl refl)

  pub open_session-Steady :
      (w : World)
      → Steady sid o refs w
      → Returns
          (λ v w'. StillSteady sid (record refs { channels = gain v refs.channels }) w')
          (open_session sid env w)
  unfolding open_session load invoke lift ◌>>=◌
  open_session-Steady w k =
      rw k.is_there
        (channels_made _ o.body.session _ _ (Steady-host k _) (report_null-null env _ _ _) _)

  pub send-Steady :
      (w : World) (args : Option (String × ℤ × ℕ × ℤ × ℤ))
      → Steady sid o refs w
      → Returns
          (λ v w'. StillSteady sid (record refs { channels = gain v refs.channels }) w')
          (Opening.send sid args env w)
  unfolding Opening.send load invoke lift fail_with set_error ◌>>=◌ Host.◌>>◌ Host.pure
  send-Steady w none k = returns (o, Steady-host k _)
  send-Steady w (some a) k =
      rw k.is_there
        (channels_made _ o.body.session _ _ (Steady-host k _) (report_null-null env _ _ _) _)

  pub init_sftp-Steady :
      (w : World)
      → Steady sid o refs w
      → Returns
          (λ v w'. StillSteady sid (record refs { sftps = gain v refs.sftps }) w')
          (init_sftp sid env w)
  unfolding init_sftp load invoke lift ◌>>=◌
  init_sftp-Steady w k =
      rw k.is_there
        (sftps_made _ o.body.session _ _ (Steady-host k _) (report_null-null env _ _ _) _)

  pub forward_listen-Steady :
      (w : World) (args : Option (String × ℤ × Ptr × ℤ))
      → Steady sid o refs w
      → BoundToNull args
      → Returns
          (λ v w'. StillSteady sid (record refs { listeners = gain v refs.listeners }) w')
          (forward_listen sid args env w)
  unfolding forward_listen load invoke lift fail_with set_error ◌>>=◌ Host.◌>>◌ Host.pure
  forward_listen-Steady w none k bound = returns (o, Steady-host k _)
  forward_listen-Steady w (some a) k bound =
      rw (k.is_there, bound)
        (listeners_made _ o.body.session _ _ (Steady-host k _) (report_null-null env _ _ _) _)

  -- The new channel object is in no set.
  accepts :
      (w : World) (session p : Ptr) (report : Io Value)
      → Steady sid o refs w
      → ((h : Host) → (report env h).0 ≡ null)
      → (missing : Bool)
      → Returns
          (λ v w'. StillSteady sid (record refs { channels = gain v refs.channels }) w')
          ((if missing
              then lift report
              else (new_channel session p >>= λ chan. pure (to_value chan)))
            env w)
  unfolding pure
  accepts w session p report k fails =
      ending (λ v. record refs { channels = gain v refs.channels }) w report
        (new_channel session p >>= λ chan. pure (to_value chan)) refl k fails
        (new_object-Returns channel_slot env w _ _ _ (λ chan. pure (to_value chan))
          (λ h. returns (o, Steady-host k h))
          λ h. returns (o, new_channel-Steady sid o refs _ (Steady-host k h) _))

  pub accept-Steady :
      (w : World) (l : ObjId)
      → Steady sid o refs w
      → 0 < refs.listeners l
      → Returns
          (λ v w'. StillSteady sid (record refs { channels = gain v refs.channels }) w')
          (accept l env w)
  unfolding accept load invoke lift ◌>>=◌
  accept-Steady w l k has =
      let (b, here) = held_there l refs.listeners (λ x. count x o.body.listeners) k.listeners has in
      rw here (accepts _ b.session _ _ (Steady-host k _) (report_null-null env _ _ _) _)
