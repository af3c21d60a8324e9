-- ===== src/Store/Threads.antt =====
-- `Channel_close` of src/channel.c on one channel object in several threads: the interpreter's lock is
-- given up around the call of `libssh2_channel_close`, so other threads run before it, during it, and
-- before the function goes on.
pub mod Frees
pub mod Alone
use pylibssh.Prelude.{ℕ, List, [], ◌∷◌, ◌==◌, if◌then◌else◌}
use pylibssh.Host.Types.{Ptr, null_ptr, is_null_ptr}
use pylibssh.Host.Calls.{Call, channel_close, channel_free}

-- Where a thread is: before the function; behind its test, without the lock; in the call, whose
-- argument it has read; behind the call; behind the function.
pub data Place : Type 0 where
  outside unlocked : Place
  calling : Ptr → Place
  relocked finished : Place

-- The field `channel` of the object, the calls, newest first, and where each thread is.
pub record Threads : Type 0 where
  pub channel : Ptr
  pub calls : List Call
  pub place : ℕ → Place

abbrev pub moved : ℕ → Place → Threads → Threads
moved i p s = record s { place = λ j. if j == i then p else s.place j }

-- What a thread does next: `if(self->channel) {` and giving up the lock; reading the argument; the
-- call; and, with the lock, the free and `self->channel = NULL;`.
unfoldable pub advance : ℕ → Place → Threads → Threads
advance i outside s = if is_null_ptr s.channel then moved i finished s else moved i unlocked s
advance i unlocked s = moved i (calling s.channel) s
advance i (calling p) s = moved i relocked (record s { calls = channel_close p ∷ s.calls })
advance i relocked s =
    moved i finished (record s { channel = null_ptr; calls = channel_free s.channel ∷ s.calls })
advance i finished s = s

-- A schedule says which thread is next.
unfoldable pub interleave : List ℕ → Threads → Threads
interleave [] s = s
interleave (i ∷ schedule) s = interleave schedule (advance i (s.place i) s)

-- All threads are before the function.
abbrev pub ready : Ptr → List Call → Threads
ready p calls = record { channel = p; calls = calls; place = λ i. outside }
