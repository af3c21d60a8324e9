-- ===== src/Store/Program/Shuts.antt =====
-- `PYLIBSSH2_Session_close` of src/session.c keeps the counts of references to channel objects.
use mathlib.Core.List.{
  Mem, Nodup, Nodup-cons, Pairwise, mem-cons_self, mem-cons_of_mem, mem_of_ne_of_mem, not-mem-nil,
  flat_map,
}
use pylibssh.Prelude.{
  ℕ, zero, suc, ℤ, pos, is_negative, ◌≤◌, ◌<◌, ◌≡◌, refl, sym, ap, ◌∙◌, subst, false, Option, none,
  some, List, [], ◌∷◌, ◌==◌, ==_iff, String, Bool-cases, inl, inr, arith,
}
use pylibssh.Host
use pylibssh.Host.{Env, fail_with, set_error}
use pylibssh.Host.Types.{ObjId, is_null_ptr, null_ptr}
use pylibssh.Handles.{Session, Channel}
use pylibssh.Store.Run.{Counted, World, ok, pure, ◌>>=◌, lift, load}
use pylibssh.Store.Sessions.{close, close_session}
use pylibssh.Store.Returns.{Returns, returns, mono, bind}
use pylibssh.Store.Entries.{left_over, apart}
use pylibssh.Store.Resources.{Resource}
use pylibssh.Store.Owning.{Contents, Owns, items}
use pylibssh.Store.Disconnect.{Disconnected, close_session-Disconnected, disconnected}
use pylibssh.Store.Program.{Held}
use pylibssh.Store.Program.Counts.{count, Entry, Counts, Counts-host}

pub Mem-count : (x : ObjId) (ys : List ObjId) → Mem x ys → 0 < count x ys
Mem-count x [] m = absurd (not-mem-nil m)
Mem-count x (y ∷ ys) m = elim (Bool-cases (x == y)) [
  | inl same ↦ rw same (omega arith)
  | inr differ ↦
      let rest = Mem-count x ys (mem_of_ne_of_mem (apart x y differ) m) in
      rw differ (omega (arith, rest))
]

pub count-Mem : (x : ObjId) (ys : List ObjId) → 0 < count x ys → Mem x ys
count-Mem x [] more = absurd (omega (arith, more))
count-Mem x (y ∷ ys) more = elim (Bool-cases (x == y)) [
  | inl same ↦ subst (λ z. Mem z (y ∷ ys)) (sym ((==_iff x y).0 same)) mem-cons_self
  | inr differ ↦ mem-cons_of_mem y (count-Mem x ys (ground (arith, differ, more)))
]

pub count-Nodup : (ys : List ObjId) → ((x : ObjId) → count x ys ≤ 1) → Nodup ys
count-Nodup [] once = Pairwise.nil
count-Nodup (y ∷ ys) once = Nodup-cons.1 (
  (λ m. absurd (ground (arith, once y, Mem-count y ys m))),
  count-Nodup ys λ x. ground (arith, once x),
)

-- The entry of an object that is left.
left_over-Entry : (h : ℕ) (b : Channel) → Entry h 0 (left_over h b)
left_over-Entry zero b = refl
left_over-Entry (suc h) b = record {
  adds_up = omega arith;
  is_counted = omega arith;
  is_open = λ more. absurd (omega (arith, more));
}

-- The fields of an object that may be there.
abbrev pub body_of : Option (Counted Channel) → Channel
body_of none = record { session = null_ptr; channel = null_ptr }
body_of (some o) = o.body

pub in_set-Entry :
    (h n : ℕ) (e : Option (Counted Channel))
    → Entry h n e
    → 0 < n
    → n ≤ 1
    → (e ≡ some (record { refs = suc h; body = body_of e }))
      × (is_null_ptr (body_of e).channel ≡ false)
in_set-Entry h n none l inside once = absurd (omega (arith, l, inside))
in_set-Entry h n (some o) l inside once = (
  ap (λ refs. some (record { refs = refs; body = o.body }))
      (omega (arith, l.adds_up, inside, once)),
  l.is_open inside,
)

absent-Entry : (h n : ℕ) (e : Option (Counted Channel)) → Entry h n e → n ≡ 0 → Entry h 0 e
absent-Entry h n e l absent = subst (λ m. Entry h m e) absent l

none-count : (h n : ℕ) (e : Option (Counted Channel)) → Entry h n e → e ≡ none → n ≡ 0
none-count h n none l gone = omega (arith, l)
none-count h n (some o) l gone = absurd (ground (arith, gone))

pub close_session-shut :
    (env : Env) (w : World) (id : ObjId) (o : Counted Session)
    → w.sessions id ≡ some o
    → o.body.opened ≡ false
    → close_session id env w ≡ ok (pos 0) w
unfolding close_session load pure ◌>>=◌
close_session-shut env w id o here shut = simp (here, shut) refl

module _ (id : ObjId) (held : Held) (w : World) (k : Counts id held w) where
  unfoldable pub contents : Contents
  contents = record {
    sftp_of = λ x. record { session = null_ptr; sftp = null_ptr; directories = []; files = [] };
    sftp_others = λ x. 0;
    handle_of = λ x. null_ptr;
    channel_of = λ x. body_of (w.channels x);
    channel_others = held;
    listener_of = λ x. record { session = null_ptr; listener = null_ptr };
    listener_others = λ x. 0;
  }

  pub contents-Owns : Owns contents k.session.body w
  unfolding contents flat_map
  contents-Owns = record {
    sftps_distinct = rw k.no_sftps Pairwise.nil;
    handles_distinct = rw k.no_sftps Pairwise.nil;
    channels_distinct = count-Nodup k.session.body.channels k.once;
    listeners_distinct = rw k.no_listeners Pairwise.nil;
    sftps_there = λ x m. absurd (not-mem-nil (subst (Mem x) k.no_sftps m));
    sftps_open = λ x m. absurd (not-mem-nil (subst (Mem x) k.no_sftps m));
    handles_there = λ x m.
        absurd (not-mem-nil (subst (λ ss. Mem x (flat_map (items contents) ss)) k.no_sftps m));
    channels_there = λ x m.
        (in_set-Entry (held x) _ (w.channels x) (k.entries x) (Mem-count x _ m) (k.once x)).0;
    channels_open = λ x m.
        (in_set-Entry (held x) _ (w.channels x) (k.entries x) (Mem-count x _ m) (k.once x)).1;
    listeners_there = λ x m. absurd (not-mem-nil (subst (Mem x) k.no_listeners m));
    listeners_open = λ x m. absurd (not-mem-nil (subst (Mem x) k.no_listeners m));
  }

  outside : (x : ObjId) → count x k.session.body.channels ≡ 0 → ¬ Mem x k.session.body.channels
  outside x absent m =
      let inside = Mem-count x k.session.body.channels m in omega (arith, absent, inside)

  after :
      (total : List Resource) (rc : ℤ) (w' : World)
      → Disconnected id k.session contents w total rc w'
      → Counts id held w'
  unfolding contents
  after total rc w' d = record {
    session = disconnected k.session;
    is_there = d.object;
    entries = λ x. elim (Bool-cases (0 == count x k.session.body.channels)) [
      | inl absent ↦
          let no_more : count x k.session.body.channels ≡ 0 = ground (arith, absent) in
          rw (d.others x (outside x no_more))
            (absent-Entry (held x) _ (w.channels x) (k.entries x) no_more)
      | inr present ↦
          let m = count-Mem x k.session.body.channels (ground (arith, present)) in
          rw (d.parted.channels x m) (left_over-Entry (held x) _)
    ];
    once = λ x. omega arith;
    no_sftps = refl;
    no_listeners = refl;
    fresh = λ x above.
        let gone = k.fresh x (omega (arith, above, d.next)) in
        d.others x (outside x (none-count (held x) _ (w.channels x) (k.entries x) gone)) ∙ gone;
  }

close_session-Counts :
    (env : Env) (id : ObjId) (held : Held) (w : World)
    → Counts id held w
    → Returns (λ _ w'. Counts id held w') (close_session id env w)
close_session-Counts env id held w k = elim (Bool-cases k.session.body.opened) [
  | inl open_ ↦
      mono
        (close_session-Disconnected env w id k.session (contents id held w k) k.is_there open_
          (contents-Owns id held w k))
        λ rc w' d. after id held w k _ rc w' d
  | inr shut ↦ rw (close_session-shut env w id k.session k.is_there shut) (returns k)
]

pub shuts-Counts :
    (env : Env) (id : ObjId) (held : Held) (w : World) (reason : Option String)
    → Counts id held w
    → Returns (λ _ w'. Counts id held w') (close id (some reason) env w)
unfolding close lift pure fail_with set_error Host.◌>>◌ Host.pure
shuts-Counts env id held w reason k =
    bind env _ _ w (close_session-Counts env id held w k) λ rc w' k'.
      elim (Bool-cases (is_negative rc)) [
        | inl failed ↦ rw failed (returns (Counts-host k' _))
        | inr closed ↦ rw closed (returns k')
      ]
