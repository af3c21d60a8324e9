-- ===== src/Store/Sets.antt =====
-- The loops `while (PySet_Size(set)) { item = PySet_Pop(set); …; Py_XDECREF(item); }`. Which element
-- is taken is up to the environment.
use pylibssh.Prelude.{ℕ, zero, suc, Bool, false, ◌||◌, List, [], ◌∷◌, length, ◌==◌, if◌then◌else◌}
use pylibssh.Host.Types.{ObjId}
use pylibssh.Store.Run.{Cmd, out_of_fuel, pure, ◌>>=◌, ◌>>◌}

-- The element at an index, or the last one, and the others.
unfoldable pub pop_at : ℕ → ObjId → List ObjId → ObjId × List ObjId
pop_at zero x xs = (x, xs)
pop_at (suc i) x [] = (x, [])
pop_at (suc i) x (y ∷ ys) = let r = pop_at i y ys in (r.0, x ∷ r.1)

unfoldable pub contains : ObjId → List ObjId → Bool
contains x [] = false
contains x (y ∷ ys) = x == y || contains x ys

-- The list without an element.
unfoldable pub discard : ObjId → List ObjId → List ObjId
discard x [] = []
discard x (y ∷ ys) = let rest = discard x ys in if x == y then ys else y ∷ rest

module _ (elements : Cmd (List ObjId)) (replace : List ObjId → Cmd (Unit {0}))
    (finish : ObjId → Cmd (Unit {0})) where
  -- One round: a set with no element ends the loop.
  unfoldable pub drain_step : Cmd (Unit {0}) → List ObjId → Cmd (Unit {0})
  drain_step again [] env w = pure tt env w
  drain_step again (x ∷ xs) env w =
      let (item, rest) = pop_at (env.pick (x ∷ xs)) x xs in
      (do replace rest; finish item; again) env w

  unfoldable pub drain_loop : ℕ → Cmd (Unit {0})
  unfolding drain_step
  drain_loop zero env w = out_of_fuel
  drain_loop (suc fuel) env w = (elements >>= drain_step (drain_loop fuel)) env w

  -- The loop, on fuel of one round more than there are elements.
  unfoldable pub drain : Cmd (Unit {0})
  unfolding drain_loop
  drain = do xs ← elements; drain_loop (suc (length xs))
