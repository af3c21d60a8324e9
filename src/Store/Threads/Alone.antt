-- ===== src/Store/Threads/Alone.antt =====
-- A thread that nobody interrupts runs `Channel_close` of src/channel.c as `Objects` has it.
use pylibssh.Prelude.{
  ℕ, ◌≡◌, refl, ◌∙◌, ap, true, false, some, List, [], ◌∷◌, ==_iff, map, Bool-cases, inl, inr,
}
use pylibssh.Host.{Env}
use pylibssh.Host.Types.{ObjId, null_ptr, is_null_ptr}
use pylibssh.Host.Calls.{channel_close, channel_free}
use pylibssh.Handles.{Channel}
use pylibssh.Store.Run.{Counted, World, write-same}
use pylibssh.Store.Objects.{close_channel}
use pylibssh.Store.Returns.{Returns, returns}
use pylibssh.Store.Channels.{close_channel-open, close_channel-null}
use pylibssh.Store.Threads.{Threads, outside, finished, advance, interleave, moved}

-- The object and the calls are the same in both models.
pub record Agrees (c : ObjId) (w : World) (s : Threads) : Type 0 where
  pub object : Counted Channel
  pub is_there : w.channels c ≡ some object
  pub same_pointer : s.channel ≡ object.body.channel
  pub same_calls : s.calls ≡ map (λ e. e.call) w.host.log

module _ (i : ℕ) (s : Threads) (at : s.place i ≡ outside) where
  abbrev four_turns : List ℕ
  four_turns = i ∷ i ∷ i ∷ i ∷ []

  interleave-closed : is_null_ptr s.channel ≡ true → interleave four_turns s ≡ moved i finished s
  unfolding interleave advance
  interleave-closed null = simp (at, null, (==_iff i i).1 refl) refl

  interleave-open :
      is_null_ptr s.channel ≡ false
      → ((interleave four_turns s).channel ≡ null_ptr)
        × ((interleave four_turns s).calls
            ≡ channel_free s.channel ∷ channel_close s.channel ∷ s.calls)
  unfolding interleave advance
  interleave-open live = simp (at, live, (==_iff i i).1 refl) (refl, refl)

-- A thread that is before the function and takes its four steps without another in between leaves the
-- object's pointer and the calls that `Channel_close` leaves where a call is one step, on an open
-- object and on a closed one; and that `Channel_close` returns without a use of freed memory.
pub interleave-close_channel :
    (env : Env) (w : World) (c : ObjId) (s : Threads) (i : ℕ)
    → Agrees c w s
    → s.place i ≡ outside
    → Returns (λ _ w'. Agrees c w' (interleave (i ∷ i ∷ i ∷ i ∷ []) s)) (close_channel c env w)
interleave-close_channel env w c s i a at = elim (Bool-cases (is_null_ptr a.object.body.channel)) [
  | inl null ↦ rw (close_channel-null env w c a.object a.is_there null) (
      returns (
        rw (interleave-closed i s at (rw a.same_pointer null)) (record {
          object = a.object;
          is_there = a.is_there;
          same_pointer = a.same_pointer;
          same_calls = a.same_calls;
        })))
  | inr live ↦
      let (pointer, calls) = interleave-open i s at (rw a.same_pointer live) in
      rw (close_channel-open env w c a.object a.is_there live) (
        returns record {
          object = _;
          is_there = write-same w.channels c _;
          same_pointer = pointer;
          same_calls =
              calls
              ∙ ap (λ p. channel_free p ∷ channel_close p ∷ s.calls) a.same_pointer
              ∙ ap
                  (λ cs.
                    channel_free a.object.body.channel ∷ channel_close a.object.body.channel ∷ cs)
                  a.same_calls;
        })
]
