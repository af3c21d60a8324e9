-- ===== src/Examples/Files.antt =====
-- The theorems on programs with files, where a directory object that is closed loses its last reference.
use pylibssh.Prelude.{
  ◌+◌, ◌≡◌, refl, true, false, none, some, is_some, ltb, ◌||◌, [], ◌∷◌, arith, ◌==◌, if◌then◌else◌,
}
use pylibssh.Host.Types.{py_none}
use pylibssh.Handles.{Session, Sftp, Handle}
use pylibssh.Store.Run.{Counted, write, release, drop_ref, load, pure, ◌>>=◌, ◌>>◌}
use pylibssh.Store.Objects.{dealloc_handle}
use pylibssh.Store.Files.{User, Leads, stays, then_acts, drops, act, held_then}
use pylibssh.Store.Files.Counts.{closed, in_sets, Filed}
use pylibssh.Store.Files.Led.{Leads-is_some, Leads-closed}
use pylibssh.Examples.{env, start}
use pylibssh.Examples.Sessions.{a_session}

abbrev a_counted : Counted Session
a_counted = record { refs = 1; body = record a_session { sftps = 4 ∷ [] } }

abbrev an_sftp : Counted Sftp
an_sftp = record { refs = 2; body = record { session = 7; sftp = 9; directories = []; files = [] } }

abbrev a_handle : Handle
a_handle = record { session = 7; sftp = 9; handle = 0 }

-- The object 5 is closed, and the program has the one reference to it.
abbrev with_closed : User
with_closed = record {
  held = λ x. if x == 5 then 1 else 0;
  world = record {
    host = start;
    sessions = λ x. some a_counted;
    channels = λ x. none;
    listeners = λ x. none;
    sftps = λ x. some an_sftp;
    handles = λ x. if x == 5 then some (record { refs = 1; body = a_handle }) else none;
    next = 20;
  };
}

with_closed-Filed : Filed 3 4 (λ x. false) with_closed.held with_closed.world
with_closed-Filed = record {
  session = a_counted;
  session_there = refl;
  sftp = an_sftp;
  sftp_there = refl;
  enough = omega arith;
  entries = λ x. ground arith;
  once = λ x. omega arith;
  fresh = λ x above. ground (arith, above);
  stay = λ x e. absurd (ground (arith, e));
}

-- Behind the end of the variable.
abbrev dropped : User
dropped = record {
  held = held_then (drops 5) py_none with_closed.held;
  world = record with_closed.world {
    handles = write with_closed.world.handles 5 (some (record { refs = 0; body = a_handle }));
  };
}

dropped-Leads : Leads env 3 4 with_closed dropped
unfolding act release drop_ref dealloc_handle load pure ◌>>=◌ ◌>>◌
dropped-Leads = then_acts {v = py_none} {w = dropped.world} (drops 5) stays (omega arith) refl

Leads-is_some_example : is_some (dropped.world.handles 5) ≡ (
    ltb 0 (dropped.held 5 + in_sets 5 (dropped.world.sftps 4)) || closed (dropped.world.handles 5))
Leads-is_some_example =
    Leads-is_some env 3 4 (λ x. false) with_closed dropped 5 with_closed-Filed dropped-Leads

Leads-closed_example : closed (dropped.world.handles 5) ≡ true
Leads-closed_example =
    Leads-closed env 3 4 (λ x. false) with_closed dropped 5 with_closed-Filed dropped-Leads refl
