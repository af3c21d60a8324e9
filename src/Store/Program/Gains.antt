-- ===== src/Store/Program/Gains.antt =====
-- The methods of src/session.c that make channel objects keep the counts of references.
use pylibssh.Prelude.{
  ℕ, ℤ, String, suc, ◌+◌, ◌≡◌, refl, subst, Bool, true, false, Option, none, some, List, ◌∷◌,
  Bool-cases, inl, inr, arith, if◌then◌else◌,
}
use pylibssh.Host.{Host, Env, called, invoke, Io}
use pylibssh.Host.Types.{ObjId, Ptr, is_null_ptr, Value, null}
use pylibssh.Report.Null.{report_null-null}
use pylibssh.Host.Calls.{Kind, py_object_new}
use pylibssh.Handles.{Session, Channel}
use pylibssh.Store.Run.{Counted, World, pure, ◌>>=◌, ◌>>◌, lift, load, write, write-same}
use pylibssh.Host
use pylibssh.Host.{set_error, fail_with}
use pylibssh.Store.Opening
use pylibssh.Store.Opening.{new_channel, track_channel, new_object, insert_object, open_session}
use pylibssh.Store.Returns.{Returns, returns}
use pylibssh.Store.Entries.{write-Changed, Changed-Changed}
use pylibssh.Store.Channels.{track_channel-object}
use pylibssh.Store.Program.{Held, gain, with_ref}
use pylibssh.Store.Program.Counts.{
  count, Counts, Counts-host, Counts-change, Entry, with_ref-same, with_ref-other, count-head,
  count-head_ne,
}

-- The state when a new channel object is tracked.
abbrev tracked : World → ObjId → Counted Session → Channel → World
tracked w id o b = record w {
  sessions =
      write w.sessions id
        (some (record o { body = record o.body { channels = w.next ∷ o.body.channels } }));
  channels =
      write (write w.channels w.next (some (record { refs = 1; body = b }))) w.next
        (some (record { refs = 2; body = b }));
  next = suc w.next;
}

tracked-Counts :
    (id : ObjId) (held : Held) (w : World) (b : Channel) (k : Counts id held w)
    → is_null_ptr b.channel ≡ false
    → Counts id (with_ref w.next held) (tracked w id k.session b)
tracked-Counts id held w b k live =
    Counts-change k w.next (with_ref w.next held) (tracked w id k.session b)
      (record k.session { body = record k.session.body { channels = w.next ∷ cs } })
      (some (record { refs = 2; body = b })) (write-same w.sessions id _) refl refl
      (with_ref-other w.next held) (λ x. count-head_ne x w.next cs)
      (Changed-Changed (write-Changed w.channels w.next _) (write-Changed _ w.next _))
      record {
        adds_up = omega (arith, with_ref-same w.next held, count-head w.next cs, none_yet);
        is_counted = omega arith;
        is_open = λ more. live;
      }
      (omega (arith, count-head w.next cs, none_yet)) (omega arith) (omega arith)
  where
    cs : List ObjId
    cs = k.session.body.channels

    none_yet : held w.next + count w.next cs ≡ 0
    none_yet =
        subst (Entry (held w.next) (count w.next cs)) (k.fresh w.next (omega arith))
          (k.entries w.next)

track_channel-Counts :
    (env : Env) (id : ObjId) (held : Held) (w : World) (b : Channel) (k : Counts id held w)
    → is_null_ptr b.channel ≡ false
    → Returns
        (λ v w'. Counts id (gain v held) w')
        (track_channel id (some w.next) env (record w {
          channels = write w.channels w.next (some (record { refs = 1; body = b }));
          next = suc w.next;
        }))
track_channel-Counts env id held w b k live =
    rw
      (track_channel-object env
        (record w {
          channels = write w.channels w.next (some (record { refs = 1; body = b }));
          next = suc w.next;
        })
        id k.session w.next (record { refs = 1; body = b }) k.is_there
        (write-same w.channels w.next _))
      (returns (tracked-Counts id held w b k live))

-- A new object of libssh2's channel, if there is memory for it, is tracked.
new_channel-Counts :
    (env : Env) (id : ObjId) (held : Held) (w : World) (k : Counts id held w) (session p : Ptr)
    → is_null_ptr p ≡ false
    → Returns
        (λ v w'. Counts id (gain v held) w')
        ((new_channel session p >>= track_channel id) env w)
unfolding new_object lift fail_with set_error invoke insert_object track_channel pure ◌>>=◌ ◌>>◌
    Host.pure Host.◌>>◌
new_channel-Counts env id held w k session p live = elim (Bool-cases (is_null_ptr session)) [
  | inl missing ↦ simp (missing) (returns k)
  | inr there ↦
      elim (Bool-cases (is_null_ptr (env.reply w.host.log (py_object_new Kind.channel)).ptr)) [
        | inl none_left ↦ simp (there, live, none_left) (returns (Counts-host k _))
        | inr made ↦
            simp (there, live, made)
              (track_channel-Counts env id held _ (record { session = session; channel = p })
                (Counts-host k _) live)
      ]
]

-- The ends of `open_session` and of `scp_send`, where `report` is the error block.
opening :
    (env : Env) (id : ObjId) (held : Held) (w : World) (k : Counts id held w) (session p : Ptr)
    (report : Io Value)
    → ((h : Host) → (report env h).0 ≡ null)
    → (missing : Bool) → (missing ≡ false → is_null_ptr p ≡ false)
    → Returns
        (λ v w'. Counts id (gain v held) w')
        ((if missing then lift report else (new_channel session p >>= track_channel id)) env w)
unfolding lift
opening env id held w k session p report fails true made =
    returns (rw (fails w.host) (Counts-host k _))
opening env id held w k session p report fails false made =
    new_channel-Counts env id held w k session p (made refl)

pub open_session-Counts :
    (env : Env) (id : ObjId) (held : Held) (w : World)
    → Counts id held w
    → Returns (λ v w'. Counts id (gain v held) w') (open_session id env w)
unfolding open_session load invoke lift ◌>>=◌
open_session-Counts env id held w k = rw k.is_there (
    opening env id held _ (Counts-host k _) k.session.body.session _ _ (report_null-null env _ _ _)
      _ λ e. e)

pub send-Counts :
    (env : Env) (id : ObjId) (held : Held) (w : World) (args : Option (String × ℤ × ℕ × ℤ × ℤ))
    → Counts id held w
    → Returns (λ v w'. Counts id (gain v held) w') (Opening.send id args env w)
unfolding Opening.send load invoke lift fail_with set_error ◌>>=◌ Host.◌>>◌ Host.pure
send-Counts env id held w none k = returns (Counts-host k _)
send-Counts env id held w (some a) k = rw k.is_there (
    opening env id held _ (Counts-host k _) k.session.body.session _ _ (report_null-null env _ _ _)
      _ λ e. e)
