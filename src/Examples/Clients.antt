-- ===== src/Examples/Clients.antt =====
-- The theorem on programs with all objects of a session, where a channel was opened.
use pylibssh.Prelude.{
  true, none, some, [], ◌∷◌, ◌==◌, if◌then◌else◌, ◌+◌, ◌≡◌, ◌||◌, refl, false, is_some, ltb, arith,
}
use pylibssh.Host.{invoke}
use pylibssh.Host.Types.{object}
use pylibssh.Handles.{Session}
use pylibssh.Store.Sessions.{dealloc_session}
use pylibssh.Store.Client.Ended.{NoRefs, IsCleared, Arrives-dealloc_session}
use pylibssh.Store.Run.{Counted, retain, load, modify, pure, ◌>>=◌, ◌>>◌, lift}
use pylibssh.Store.Opening.{open_session, new_object, insert_object, track_channel, add_channel}
use pylibssh.Store.Returns.{Returns}
use pylibssh.Store.Channels.{opened}
use pylibssh.Store.Client.{lost_after, Request, Client, Arrives, serve, refs_after}
use pylibssh.Store.Client.State.{Refs, with_lost, in_all_sets}
use pylibssh.Store.Client.Present.{Arrives-is_some, in_session}
use pylibssh.Store.Files.Counts.{closed}
use pylibssh.Store.Client.Discarding.{StillSteady}
use pylibssh.Store.Client.Served.{serve-safe}
use pylibssh.Examples.{env, a_channel}
use pylibssh.Examples.Sessions.{world, a_session}
use pylibssh.Examples.Programs.{a_counted}

abbrev no_refs : Refs
no_refs = record {
  channels = λ x. 0;
  listeners = λ x. 0;
  sftps = λ x. 0;
  handles = λ x. 0;
  ending = λ x. false;
}

abbrev at_start : Client
at_start = record { refs = no_refs; lost = λ x. 0; world = world }

at_start-StillSteady : StillSteady 3 (with_lost at_start.refs at_start.lost) at_start.world
at_start-StillSteady = (
  a_counted,
  record {
    is_there = refl;
    channels = record { entries = λ x. refl; fresh = λ x above. refl };
    listeners = record { entries = λ x. refl; fresh = λ x above. refl };
    sftps = record { entries = λ x. refl; fresh = λ x above. refl };
    handles = record { entries = λ x. refl; fresh = λ x above. refl };
    emptied = λ y. tt;
  },
)

-- Behind `open_session`.
abbrev with_channel : Client
with_channel = record {
  refs = refs_after Request.open_session (object 20) no_refs;
  lost = λ x. 0;
  world = opened env world 3 a_counted 1;
}

with_channel-Arrives : Arrives env 3 at_start with_channel
unfolding serve open_session new_object insert_object track_channel add_channel retain load modify
    pure ◌>>=◌ ◌>>◌ lift invoke
with_channel-Arrives =
    Arrives.serves {v = object 20} {w = opened env world 3 a_counted 1} Request.open_session
      Arrives.here tt refl

serve-safe_example :
    Returns
      (λ v w'.
        StillSteady 3
          (with_lost
            (refs_after (Request.channel_close 20) v with_channel.refs)
            (lost_after (Request.channel_close 20) v with_channel.lost))
          w')
      (serve 3 (Request.channel_close 20) env with_channel.world)
serve-safe_example =
    serve-safe env 3 at_start with_channel (Request.channel_close 20) at_start-StillSteady
      with_channel-Arrives (omega arith)

Arrives-is_some_example :
    (is_some (with_channel.world.channels 20)
      ≡ ltb 0 (
          with_channel.refs.channels 20
          + with_channel.lost 20
          + in_session (λ b. b.channels) 20 (with_channel.world.sessions 3)))
    × (is_some (with_channel.world.listeners 20)
        ≡ ltb 0 (
            with_channel.refs.listeners 20
            + in_session (λ b. b.listeners) 20 (with_channel.world.sessions 3)))
    × (is_some (with_channel.world.sftps 20)
        ≡ ltb 0 (
            with_channel.refs.sftps 20
            + in_session (λ b. b.sftps) 20 (with_channel.world.sessions 3)))
    × (is_some (with_channel.world.handles 20) ≡ (
        ltb 0 (
          with_channel.refs.handles 20
          + in_all_sets with_channel.world.sftps with_channel.world.next 20)
        || closed (with_channel.world.handles 20)))
Arrives-is_some_example =
    Arrives-is_some env 3 at_start with_channel 20 at_start-StillSteady (λ y. refl)
      with_channel-Arrives

-- An open session with one channel of `scp_recv`, which the program has no reference to any more.
abbrev left : Counted Session
left = record { refs = 0; body = record a_session { opened = true; channels = 20 ∷ [] } }

abbrev at_end : Client
at_end = record {
  refs = no_refs;
  lost = λ x. if x == 20 then 1 else 0;
  world = record world {
    sessions = λ x. some left;
    channels = λ x. if x == 20 then some (record { refs = 2; body = a_channel }) else none;
    next = 21;
  };
}

at_end-StillSteady : StillSteady 3 (with_lost at_end.refs at_end.lost) at_end.world
at_end-StillSteady = (
  left,
  record {
    is_there = refl;
    channels = record { entries = λ x. ground arith; fresh = λ x above. ground (arith, above) };
    listeners = record { entries = λ x. refl; fresh = λ x above. refl };
    sftps = record { entries = λ x. refl; fresh = λ x above. refl };
    handles = record { entries = λ x. refl; fresh = λ x above. refl };
    emptied = λ y. tt;
  },
)

no_refs-NoRefs : NoRefs no_refs
no_refs-NoRefs = record {
  channels = λ x. refl;
  listeners = λ x. refl;
  sftps = λ x. refl;
  handles = λ x. refl;
  ending = λ x. refl;
}

Arrives-dealloc_session_example :
    Returns (λ _ w'. IsCleared 3 at_end.lost 20 w') (dealloc_session 3 env at_end.world)
Arrives-dealloc_session_example =
    Arrives-dealloc_session env 3 at_end at_end left 20 at_end-StillSteady Arrives.here
      no_refs-NoRefs refl refl refl
