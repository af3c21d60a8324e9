-- ===== src/Examples/Programs.antt =====
-- The theorems on programs, where a channel was opened and its object was copied.
use pylibssh.Prelude.{[], refl, arith}
use pylibssh.Host.Types.{object}
use pylibssh.Store.Run.{Counted, retain, load, modify, pure, ◌>>=◌, ◌>>◌, lift}
use pylibssh.Store.Opening.{open_session, new_object, insert_object, track_channel, add_channel}
use pylibssh.Handles.{Session}
use pylibssh.Store.Channels.{opened}
use pylibssh.Store.Program.{Program, Reaches, done, step, opens, perform, held_after}
use pylibssh.Store.Program.Counts.{Counts}
use mathlib.Core.List.{flat_map}
use mathlib.Core.List.Perm
use pylibssh.Store.Program.Ledger.{Balance}
use pylibssh.Store.Program.Reached.{Reaches-Balance}
use pylibssh.Examples.{env}
use pylibssh.Examples.Sessions.{a_session, world}
use pylibssh.Host.{invoke}

abbrev pub a_counted : Counted Session
a_counted = record { refs = 1; body = a_session }

abbrev at_start : Program
at_start = record { held = λ x. 0; world = world }

at_start-Counts : Counts 3 at_start.held at_start.world
at_start-Counts = record {
  session = a_counted;
  is_there = refl;
  entries = λ x. refl;
  once = λ x. omega arith;
  no_sftps = refl;
  no_listeners = refl;
  fresh = λ x above. refl;
}

-- Behind `open_session`.
abbrev with_channel : Program
with_channel = record {
  held = held_after opens (object 20) at_start.held;
  world = opened env world 3 a_counted 1;
}

with_channel-Reaches : Reaches env 3 at_start with_channel
unfolding perform open_session new_object insert_object track_channel add_channel retain load modify
    pure ◌>>=◌ ◌>>◌ lift invoke
with_channel-Reaches = step {v = object 20} {w = opened env world 3 a_counted 1} opens done tt refl

at_start-Balance : Balance at_start.world
unfolding flat_map
at_start-Balance = record { lost = []; adds_up = Perm.refl _ }

Reaches-Balance_example : Balance with_channel.world
Reaches-Balance_example =
    Reaches-Balance env 3 at_start with_channel at_start-Counts at_start-Balance
      with_channel-Reaches
