-- ===== src/Examples/Objects.antt =====
-- The theorems on closing, in a memory with one object of each kind and files everywhere.
use mathlib.Core.List.{flat_map, Nodup, Nodup-cons, Pairwise, mem_of_ne_of_mem, not-mem-nil}
use pylibssh.Prelude.{pos, true, false, ℕ, arith, suc, ◌-◌, ◌≡◌, refl, some, none, List, [], ◌∷◌}
use pylibssh.Host.Types.{is_null_ptr, ObjId}
use pylibssh.Host.Calls.{channel_forward_cancel, sftp_close_handle}
use pylibssh.Handles.{Session, Sftp, Handle, Listener}
use pylibssh.Store.Run.{Counted, World, ◌>>◌}
use pylibssh.Store.Objects.{close_channel, shutdown_sftp, cancel_listener, close_handle}
use pylibssh.Store.Returns.{Returns}
use pylibssh.Store.Shutdown.{Ended, shutdown_sftp-Ended}
use pylibssh.Store.Sessions.{close_session, dealloc_session}
use pylibssh.Store.Resources.{Resource, sftp, handle, channel, listener}
use pylibssh.Store.Owning.{Contents, Owns}
use pylibssh.Store.Dealloc.{Gone, dealloc_session-Gone}
use pylibssh.Store.Disconnect.{Disconnected, close_session-Disconnected}
use pylibssh.Store.Twice.{
  calls, close_channel-close_channel, shutdown_sftp-shutdown_sftp, cancel_and_close_again,
}
use pylibssh.Init.{TypeName}
use pylibssh.Types.{decref}
use pylibssh.Types.Freed.{IsGone, decref-IsGone}
use pylibssh.Examples.{env, start, a_channel}

-- Two directories and a file are open.
abbrev an_sftp : Sftp
an_sftp = record { session = 7; sftp = 9; directories = 1 ∷ 2 ∷ []; files = 3 ∷ [] }

abbrev a_listener : Counted Listener
a_listener = record { refs = 1; body = record { session = 7; listener = 11 } }

-- Each handle object has a handle of its own.
abbrev handle_at : ObjId → Counted Handle
handle_at x = record { refs = 1; body = record { session = 7; sftp = 9; handle = suc x } }

abbrev pub memory : World
memory = record {
  host = start;
  sessions = λ x. none;
  channels = λ x. some (record { refs = 1; body = a_channel });
  listeners = λ x. some a_listener;
  sftps = λ x. some (record { refs = 1; body = an_sftp });
  handles = λ x. some (handle_at x);
  next = 20;
}

close_channel-close_channel_example :
    (close_channel 5 >> close_channel 5) env memory ≡ close_channel 5 env memory
close_channel-close_channel_example = close_channel-close_channel env memory 5

shutdown_sftp-shutdown_sftp_example :
    (shutdown_sftp 6 >> shutdown_sftp 6) env memory ≡ shutdown_sftp 6 env memory
shutdown_sftp-shutdown_sftp_example = shutdown_sftp-shutdown_sftp env memory 6

cancel_and_close_again_example :
    (calls ((cancel_listener 5 >> cancel_listener 5) env memory)
      ≡ channel_forward_cancel 0 ∷ channel_forward_cancel 11 ∷ [])
    × (calls ((close_handle 5 >> close_handle 5) env memory)
        ≡ sftp_close_handle 0 ∷ sftp_close_handle 6 ∷ [])
cancel_and_close_again_example =
    cancel_and_close_again env memory 5 a_listener (handle_at 5) refl refl

-- The three numbers differ.
distinct-Nodup : Nodup {A = ℕ} (1 ∷ 2 ∷ 3 ∷ [])
distinct-Nodup = Nodup-cons.1 (
  (λ m.
      not-mem-nil
        (mem_of_ne_of_mem (λ e. omega (arith, e)) (mem_of_ne_of_mem (λ e. omega (arith, e)) m))),
  Nodup-cons.1 (
    (λ m. not-mem-nil (mem_of_ne_of_mem (λ e. omega (arith, e)) m)),
    Nodup-cons.1 (not-mem-nil, Pairwise.nil),
  ),
)

shutdown_sftp-Ended_example :
    Returns
      (λ _ w'. Ended memory 6 1 an_sftp (handle 2 ∷ handle 3 ∷ handle 4 ∷ []) w')
      (shutdown_sftp 6 env memory)
shutdown_sftp-Ended_example =
    shutdown_sftp-Ended env memory 6 1 an_sftp suc refl refl distinct-Nodup
      (λ x m. record { others = 0; body = (handle_at x).body; is_there = refl; handle_is = refl })

decref-IsGone_example :
    Returns (λ _ w'. IsGone TypeName.sftp 6 w') (decref TypeName.sftp 6 env memory)
decref-IsGone_example = decref-IsGone env TypeName.sftp memory 6 an_sftp refl (
  suc,
  refl,
  distinct-Nodup,
  λ x m. record { others = 0; body = (handle_at x).body; is_there = refl; handle_is = refl },
)

one-Nodup : Nodup {A = ℕ} (6 ∷ [])
one-Nodup = Nodup-cons.1 (not-mem-nil, Pairwise.nil)

-- An open session with an SFTP object, three channels and three listeners. The channel with number x
-- has x references more, the listener with number x has x - 1.
abbrev an_open_session : Counted Session
an_open_session = record {
  refs = 1;
  body = record {
    session = 7;
    socket = some (pos 4);
    opened = true;
    sftps = 6 ∷ [];
    channels = 1 ∷ 2 ∷ 3 ∷ [];
    listeners = 1 ∷ 2 ∷ 3 ∷ [];
  };
}

abbrev contents : Contents
contents = record {
  sftp_of = λ x. an_sftp;
  sftp_others = λ x. 0;
  handle_of = suc;
  channel_of = λ x. record { session = 7; channel = suc x };
  channel_others = λ x. x;
  listener_of = λ x. record { session = 7; listener = suc x };
  listener_others = λ x. x - 1;
}

abbrev connected_memory : World
connected_memory = record memory {
  sessions = λ x. some an_open_session;
  channels = λ x. some (record { refs = suc x; body = contents.channel_of x });
  listeners = λ x. some (record { refs = suc (x - 1); body = contents.listener_of x });
}

suc-open : (x : ℕ) → is_null_ptr (suc x) ≡ false
suc-open x = ground arith

an_open_session-Owns : Owns contents an_open_session.body connected_memory
unfolding flat_map
an_open_session-Owns = record {
  sftps_distinct = one-Nodup;
  handles_distinct = distinct-Nodup;
  channels_distinct = distinct-Nodup;
  listeners_distinct = distinct-Nodup;
  sftps_there = λ x m. refl;
  sftps_open = λ x m. refl;
  handles_there =
      λ x m. record { others = 0; body = (handle_at x).body; is_there = refl; handle_is = refl };
  channels_there = λ x m. refl;
  channels_open = λ x m. suc-open x;
  listeners_there = λ x m. refl;
  listeners_open = λ x m. suc-open x;
}

-- What the objects have of libssh2's: the listeners 2 and 3 live on.
abbrev all_resources : List Resource
all_resources =
    sftp 9 ∷ handle 2 ∷ handle 3 ∷ handle 4 ∷ channel 2 ∷ channel 3 ∷ channel 4 ∷ listener 2 ∷ []

close_session-Disconnected_example :
    Returns
      (Disconnected 6 an_open_session contents connected_memory all_resources)
      (close_session 6 env connected_memory)
unfolding flat_map
close_session-Disconnected_example =
    close_session-Disconnected env connected_memory 6 an_open_session contents refl refl
      an_open_session-Owns

dealloc_session-Gone_example :
    Returns
      (λ _ w'. Gone 6 an_open_session contents all_resources none w')
      (dealloc_session 6 env connected_memory)
unfolding flat_map
dealloc_session-Gone_example =
    dealloc_session-Gone env connected_memory 6 an_open_session contents refl refl refl
      an_open_session-Owns
