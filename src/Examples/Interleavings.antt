-- ===== src/Examples/Interleavings.antt =====
-- The theorems on several threads at concrete inputs.
use pylibssh.Prelude.{ℕ, ◌≡◌, refl, List, [], ◌∷◌, ◌++◌, arith}
use pylibssh.Host.Types.{null_ptr}
use pylibssh.Host.Calls.{channel_close, channel_free}
use pylibssh.Store.Objects.{close_channel}
use pylibssh.Store.Returns.{Returns}
use pylibssh.Store.Threads.{advance, finished, interleave, ready}
use pylibssh.Store.Threads.Frees.{Safe, frees, nulls, ready-Safe, interleave-finished}
use pylibssh.Store.Threads.Alone.{Agrees, interleave-close_channel}
use pylibssh.Examples.{env}
use pylibssh.Examples.Objects.{memory}

-- Two threads, of which the second has passed the test when the first gives the channel back.
abbrev both : List ℕ
both = 0 ∷ 1 ∷ 0 ∷ 1 ∷ 0 ∷ 0 ∷ 1 ∷ 1 ∷ []

ready-Safe_example : Safe 8 (interleave both (ready 8 []))
ready-Safe_example = ready-Safe 8 both refl

interleave-finished_example :
    let s = interleave both (ready 8 []) in
    (s.place 1 ≡ finished)
    × (s.channel ≡ null_ptr)
    × ((later : ℕ) × (frees s.calls ≡ nulls later ++ (8 ∷ [])))
interleave-finished_example = interleave-finished 8 both 1 refl (omega arith)

-- In this order libssh2 is asked to close the channel once more behind its free.
closed_behind_free :
    (interleave both (ready 8 [])).calls
    ≡ channel_free 0 ∷ channel_close 8 ∷ channel_free 8 ∷ channel_close 8 ∷ []
unfolding interleave advance
closed_behind_free = refl

interleave-close_channel_example :
    Returns
      (λ _ w'. Agrees 5 w' (interleave (3 ∷ 3 ∷ 3 ∷ 3 ∷ []) (ready 8 [])))
      (close_channel 5 env memory)
interleave-close_channel_example =
    interleave-close_channel env memory 5 (ready 8 []) 3
      (record { object = _; is_there = refl; same_pointer = refl; same_calls = refl }) refl
