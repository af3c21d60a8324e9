-- ===== src/Store/Returns.antt =====
-- Total correctness of a command: no fault, enough fuel, and a postcondition. And the rule for the
-- loops over sets.
use mathlib.Core.List.{Perm}
use mathlib.Core.List.Perm
use pylibssh.Prelude.{ℕ, zero, suc, ◌<◌, ◌≡◌, refl, List, [], ◌∷◌, length, arith}
use pylibssh.Host.{Env}
use pylibssh.Host.Types.{ObjId}
use pylibssh.Store.Run.{World, Run, ok, fault, out_of_fuel, Cmd, and_then, pure, ◌>>=◌, ◌>>◌}
use pylibssh.Store.Sets.{pop_at, drain_loop, drain}

pub data Returns {A : Type 0} (P : A → World → Type 0) : Run A → Type 0 where
  returns : {a : A} {w : World} → P a w → Returns P (ok a w)

module _ {A : Type 0} {P : A → World → Type 0} where
  pub mono :
      {Q : A → World → Type 0} {r : Run A}
      → Returns P r
      → ((a : A) (w : World) → P a w → Q a w)
      → Returns Q r
  mono (returns p) weaken = returns (weaken _ _ p)

  and_then-Returns :
      {B : Type 0} {Q : B → World → Type 0} (env : Env) {r : Run A} (k : A → Cmd B)
      → Returns P r
      → ((a : A) (w : World) → P a w → Returns Q (k a env w))
      → Returns Q (and_then env r k)
  and_then-Returns env k (returns p) next = next _ _ p

  pub bind :
      {B : Type 0} {Q : B → World → Type 0} (env : Env) (m : Cmd A) (k : A → Cmd B) (w : World)
      → Returns P (m env w)
      → ((a : A) (w' : World) → P a w' → Returns Q (k a env w'))
      → Returns Q ((m >>= k) env w)
  unfolding ◌>>=◌
  bind env m k w p next = and_then-Returns env k p next

  pub chain :
      {B : Type 0} {Q : B → World → Type 0} (env : Env) (m : Cmd A) (k : Cmd B) (w : World)
      → Returns P (m env w)
      → ((a : A) (w' : World) → P a w' → Returns Q (k env w'))
      → Returns Q ((m >> k) env w)
  unfolding ◌>>◌
  chain env m k w p next = and_then-Returns env (λ _. k) p next

assoc :
    {A B C : Type 0} (env : Env) (r : Run A) (k : Cmd B) (n : Cmd C)
    → and_then env (and_then env r (λ _. k)) (λ _. n) ≡ and_then env r (λ _. k >> n)
unfolding ◌>>◌
assoc env (ok a w) k n = refl
assoc env fault k n = refl
assoc env out_of_fuel k n = refl

pub >>_assoc :
    {A B C : Type 0} (env : Env) (m : Cmd A) (k : Cmd B) (n : Cmd C) (w : World)
    → ((m >> k) >> n) env w ≡ (m >> (k >> n)) env w
unfolding ◌>>◌
>>_assoc env m k n w = assoc env (m env w) k n

-- What is taken and what is left make up the list.
pub pop_at-perm :
    (i : ℕ) (x : ObjId) (xs : List ObjId) → Perm (x ∷ xs) ((pop_at i x xs).0 ∷ (pop_at i x xs).1)
unfolding pop_at
pop_at-perm zero x xs = Perm.refl _
pop_at-perm (suc i) x [] = Perm.refl _
pop_at-perm (suc i) x (y ∷ ys) = Perm.trans (Perm.cons x (pop_at-perm i y ys)) (Perm.swap _ _ _)

pub length-pop_at : (i : ℕ) (x : ObjId) (xs : List ObjId) → length (pop_at i x xs).1 ≡ length xs
unfolding pop_at
length-pop_at zero x xs = refl
length-pop_at (suc i) x [] = refl
length-pop_at (suc i) x (y ∷ ys) = omega (arith, length-pop_at i y ys)

-- An invariant over the elements that are left holds at the end of the loop with none, if each round
-- takes it from the elements to those that are left when one is taken, whichever that is.
module _ (env : Env) (elements : Cmd (List ObjId)) (replace : List ObjId → Cmd (Unit {0}))
    (finish : ObjId → Cmd (Unit {0})) (Inv : List ObjId → World → Type 0)
    (reads : (xs : List ObjId) (w : World) → Inv xs w → elements env w ≡ ok xs w)
    (round : (xs : List ObjId) (item : ObjId) (rest : List ObjId) (w : World)
      → Inv xs w
      → Perm xs (item ∷ rest)
      → Returns (λ _ w'. Inv rest w') ((replace rest >> finish item) env w)) where
  drain_loop-Inv :
      (fuel : ℕ) (xs : List ObjId) (w : World)
      → Inv xs w
      → length xs < fuel
      → Returns (λ _ w'. Inv [] w') (drain_loop elements replace finish fuel env w)
  unfolding drain_loop ◌>>=◌ pure
  drain_loop-Inv zero xs w inv enough = absurd (omega arith)
  drain_loop-Inv (suc fuel) [] w inv enough = rw (reads [] w inv) (returns inv)
  drain_loop-Inv (suc fuel) (x ∷ xs) w inv enough = rw (reads (x ∷ xs) w inv) (
      rw (← >>_assoc env (replace taken.1) (finish taken.0) again w) (
        chain env (replace taken.1 >> finish taken.0) again w
          (round (x ∷ xs) taken.0 taken.1 w inv (pop_at-perm _ x xs))
          λ _ w' inv'.
            drain_loop-Inv fuel taken.1 w' inv'
              (omega (arith, length-pop_at (env.pick (x ∷ xs)) x xs))))
    where
      taken : ObjId × List ObjId
      taken = pop_at (env.pick (x ∷ xs)) x xs

      again : Cmd (Unit {0})
      again = drain_loop elements replace finish fuel

  pub drain-Inv :
      (xs : List ObjId) (w : World)
      → Inv xs w
      → Returns (λ _ w'. Inv [] w') (drain elements replace finish env w)
  unfolding drain ◌>>=◌
  drain-Inv xs w inv = rw (reads xs w inv) (drain_loop-Inv (suc (length xs)) xs w inv (omega arith))
