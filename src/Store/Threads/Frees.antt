-- ===== src/Store/Threads/Frees.antt =====
-- What comes of every interleaving of `Channel_close` of src/channel.c.
use pylibssh.Prelude.{
  ℕ, zero, suc, ◌+◌, ◌-◌, ◌≤◌, ◌<◌, ◌≡◌, inl, inr, refl, ap, ◌∙◌, subst, true, false, List, [], ◌∷◌,
  ◌++◌, ◌==◌, ==_iff, Bool-cases, arith, if◌then◌else◌,
}
use pylibssh.Host.Types.{Ptr, null_ptr, is_null_ptr}
use pylibssh.Host.Calls.{Call, channel_free}
use pylibssh.Store.Threads.{
  Place, outside, unlocked, calling, relocked, finished, Threads, advance, interleave, ready, moved,
}

-- The pointers that the calls of `libssh2_channel_free` were given, newest first.
abbrev pub given_to_free : Call → List Ptr → List Ptr
given_to_free (channel_free p) ps = p ∷ ps
given_to_free c ps = ps

abbrev pub frees : List Call → List Ptr
frees [] = []
frees (c ∷ calls) = given_to_free c (frees calls)

-- How many steps a thread still has to make.
abbrev pub rank : Place → ℕ
rank outside = 4
rank unlocked = 3
rank (calling p) = 2
rank relocked = 1
rank finished = 0

abbrev pub turns : ℕ → List ℕ → ℕ
turns i [] = 0
turns i (j ∷ schedule) = (if i == j then 1 else 0) + turns i schedule

abbrev pub nulls : ℕ → List Ptr
nulls zero = []
nulls (suc n) = null_ptr ∷ nulls n

-- Either the channel is open and no thread has finished, or it was freed once.
pub data Safe (p : Ptr) (s : Threads) : Type 0 where
  untouched : s.channel ≡ p → frees s.calls ≡ [] → ((i : ℕ) → 0 < rank (s.place i)) → Safe p s
  closed : (later : ℕ) → s.channel ≡ null_ptr → frees s.calls ≡ nulls later ++ (p ∷ []) → Safe p s

still_going :
    (i : ℕ) (here : Place) (s : Threads)
    → 0 < rank here
    → ((j : ℕ) → 0 < rank (s.place j))
    → (j : ℕ) → 0 < rank ((moved i here s).place j)
still_going i here s goes going j = elim (Bool-cases (j == i)) [
  | inl same ↦ rw same goes
  | inr differ ↦ rw differ (going j)
]

module _ (p : Ptr) (live : is_null_ptr p ≡ false) (i : ℕ) where
  advance-Safe : (here : Place) (s : Threads) → Safe p s → Safe p (advance i here s)
  unfolding advance
  advance-Safe outside s (untouched open_ none_yet going) =
      let test : is_null_ptr s.channel ≡ false = rw open_ live in
      rw test (untouched open_ none_yet (still_going i unlocked s (omega arith) going))
  advance-Safe outside s (closed later gone once) =
      let test : is_null_ptr s.channel ≡ true = rw gone refl in rw test (closed later gone once)
  advance-Safe unlocked s (untouched open_ none_yet going) =
      untouched open_ none_yet (still_going i (calling s.channel) s (omega arith) going)
  advance-Safe unlocked s (closed later gone once) = closed later gone once
  advance-Safe (calling q) s (untouched open_ none_yet going) =
      untouched open_ none_yet (still_going i relocked s (omega arith) going)
  advance-Safe (calling q) s (closed later gone once) = closed later gone once
  advance-Safe relocked s (untouched open_ none_yet going) =
      closed 0 refl (ap (◌∷◌ s.channel) none_yet ∙ ap (λ q. q ∷ []) open_)
  advance-Safe relocked s (closed later gone once) =
      closed (suc later) refl
        (ap (◌∷◌ s.channel) once ∙ ap (λ q. q ∷ (nulls later ++ (p ∷ []))) gone)
  advance-Safe finished s safe = safe

interleave-Safe :
    (p : Ptr) (schedule : List ℕ) (s : Threads)
    → is_null_ptr p ≡ false
    → Safe p s
    → Safe p (interleave schedule s)
unfolding interleave
interleave-Safe p [] s live safe = safe
interleave-Safe p (i ∷ schedule) s live safe =
    interleave-Safe p schedule (advance i (s.place i) s) live
      (advance-Safe p live i (s.place i) s safe)

moved-same : (i : ℕ) (here : Place) (s : Threads) → (moved i here s).place i ≡ here
moved-same i here s = rw ((==_iff i i).1 refl) refl

rank-advance :
    (i : ℕ) (here : Place) (s : Threads)
    → s.place i ≡ here
    → rank ((advance i here s).place i) ≤ rank here - 1
unfolding advance
rank-advance i outside s at = elim (Bool-cases (is_null_ptr s.channel)) [
  | inl null ↦ rw (null, moved-same i finished s) (omega arith)
  | inr live ↦ rw (live, moved-same i unlocked s) (omega arith)
]
rank-advance i unlocked s at = rw (moved-same i (calling s.channel) s) (omega arith)
rank-advance i (calling q) s at = rw (moved-same i relocked s) (omega arith)
rank-advance i relocked s at = rw (moved-same i finished s) (omega arith)
rank-advance i finished s at = rw at (omega arith)

place-advance :
    (i j : ℕ) (here : Place) (s : Threads)
    → (j == i) ≡ false
    → (advance i here s).place j ≡ s.place j
unfolding advance
place-advance i j outside s differ = elim (Bool-cases (is_null_ptr s.channel)) [
  | inl null ↦ rw (null, differ) refl
  | inr live ↦ rw (live, differ) refl
]
place-advance i j unlocked s differ = rw differ refl
place-advance i j (calling q) s differ = rw differ refl
place-advance i j relocked s differ = rw differ refl
place-advance i j finished s differ = refl

rank-interleave :
    (j : ℕ) (schedule : List ℕ) (s : Threads)
    → rank ((interleave schedule s).place j) ≤ rank (s.place j) - turns j schedule
unfolding interleave
rank-interleave j [] s = omega arith
rank-interleave j (i ∷ schedule) s =
    let rest = rank-interleave j schedule (advance i (s.place i) s) in
    elim (Bool-cases (j == i)) [
      | inl same ↦
          let step : rank ((advance i (s.place i) s).place j) ≤ rank (s.place j) - 1 =
            subst (λ k. rank ((advance k (s.place k) s).place j) ≤ rank (s.place j) - 1)
              ((==_iff j i).0 same) (rank-advance j (s.place j) s refl) in
          rw same (omega (arith, rest, step))
      | inr differ ↦
          let e = ap rank (place-advance i j (s.place i) s differ) in
          rw differ (omega (arith, rest, e))
    ]

rank-finished : (here : Place) → rank here ≡ 0 → here ≡ finished
rank-finished finished none = refl
rank-finished here none = absurd (omega (arith, none))

-- Any number of threads call `Channel_close` on an open channel, and take their steps in any order:
-- the channel is given to `libssh2_channel_free` at most once, and nothing else but `NULL` is. Until
-- then the object has its pointer and no thread has finished; from then on the pointer is `NULL`.
pub ready-Safe :
    (p : Ptr) (schedule : List ℕ)
    → is_null_ptr p ≡ false
    → Safe p (interleave schedule (ready p []))
ready-Safe p schedule live =
    interleave-Safe p schedule (ready p []) live (untouched refl refl (λ i. omega arith))

freed_when_finished :
    (p : Ptr) (i : ℕ) (s : Threads)
    → Safe p s
    → s.place i ≡ finished
    → (s.channel ≡ null_ptr) × ((later : ℕ) × (frees s.calls ≡ nulls later ++ (p ∷ [])))
freed_when_finished p i s (untouched open_ none_yet going) at =
    absurd (omega (arith, subst (λ here. 0 < rank here) at (going i)))
freed_when_finished p i s (closed later gone once) at = (gone, (later, once))

-- A thread that gets four turns or more in a schedule has finished at its end, the pointer is `NULL`
-- then, and the channel was given to `libssh2_channel_free` once, before any calls with `NULL`.
pub interleave-finished :
    (p : Ptr) (schedule : List ℕ) (i : ℕ)
    → is_null_ptr p ≡ false
    → 4 ≤ turns i schedule
    → let s = interleave schedule (ready p []) in
      (s.place i ≡ finished)
      × (s.channel ≡ null_ptr)
      × ((later : ℕ) × (frees s.calls ≡ nulls later ++ (p ∷ [])))
interleave-finished p schedule i live often =
    let s = interleave schedule (ready p []) in
    let at : s.place i ≡ finished =
      rank-finished (s.place i) (omega (arith, often, rank-interleave i schedule (ready p []))) in
    let (gone, once) = freed_when_finished p i s (ready-Safe p schedule live) at in (at, gone, once)
