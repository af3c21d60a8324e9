-- ===== src/Store/Files/Shuts.antt =====
-- `PYLIBSSH2_Session_sftp_shutdown` of src/session.c keeps the counts of references to file and
-- directory objects.
use mathlib.Core.List.{Mem}
use pylibssh.Prelude.{
  ℕ, zero, suc, ◌+◌, ◌-◌, ◌≤◌, ◌<◌, ◌≡◌, refl, sym, ap, ◌∙◌, subst, Bool, true, Option, none, some,
  List, [], ◌∷◌, ◌++◌, ◌==◌, Bool-cases, inl, inr, arith,
}
use pylibssh.Host.{Env}
use pylibssh.Host.Types.{ObjId, Ptr, is_null_ptr, null_ptr}
use pylibssh.Handles.{Sftp, Handle}
use pylibssh.Store.Run.{
  Counted, World, pure, ◌>>=◌, ◌>>◌, load, modify, release, write, write-same, sftp_slot,
}
use pylibssh.Store.Sets.{contains, discard}
use pylibssh.Store.Objects.{shutdown_sftp, dealloc_sftp}
use pylibssh.Store.Sessions.{sftp_shutdown, set_sftps, discard_from}
use pylibssh.Store.Returns.{Returns, returns, mono, chain}
use pylibssh.Store.Entries.{release-kept}
use pylibssh.Store.Resources.{Resource}
use pylibssh.Store.Closing.{Holds, taken_out}
use pylibssh.Store.Shutdown.{Ended, shutdown_sftp-Ended}
use pylibssh.Store.Twice.{shutdown_null}
use pylibssh.Store.Program.{Held}
use pylibssh.Store.Program.Counts.{count, count-discard}
use pylibssh.Store.Program.Shuts.{Mem-count, count-Mem, count-Nodup}
use pylibssh.Store.Files.Counts.{kept_by, closed, UsedEntry, used, Filed}

count-append : (x : ObjId) (xs ys : List ObjId) → count x (xs ++ ys) ≡ count x xs + count x ys
count-append x [] ys = omega arith
count-append x (z ∷ xs) ys = omega (arith, count-append x xs ys)

-- The handle of an object.
abbrev handle_of : Option (Counted Handle) → Ptr
handle_of none = null_ptr
handle_of (some k) = k.body.handle

used-Holds :
    (h n : ℕ) (w : World) (x : ObjId)
    → UsedEntry h n (w.handles x)
    → 0 < n
    → Holds w.handles x (handle_of (w.handles x))
used-Holds h n w x l inside =
    let (k, here, u) = used h n (w.handles x) l (omega (arith, inside)) in
    record {
      others = h + n - 1;
      body = k.body;
      is_there =
          here
          ∙ ap (λ r. some (record { refs = r; body = k.body })) (omega (arith, u.adds_up, inside));
      handle_is = sym (ap handle_of here);
    }

taken_out-UsedEntry :
    (h n : ℕ) (e : Option (Counted Handle))
    → UsedEntry h n e
    → 0 < n
    → n ≤ 1
    → UsedEntry h 0 (taken_out e)
taken_out-UsedEntry h n none l inside once = absurd (omega (arith, l, inside))
taken_out-UsedEntry h n (some k) l inside once = record {
  adds_up = omega (arith, l.adds_up, inside, once);
  is_closed = λ e. refl;
}

closed-taken_out : (e : Option (Counted Handle)) → closed e ≡ true → closed (taken_out e) ≡ true
closed-taken_out none is_shut = is_shut
closed-taken_out (some k) is_shut = refl

module _ (sid id : ObjId) (shut : ObjId → Bool) (held : Held) (w : World)
    (k : Filed sid id shut held w) where
  abbrev all : List ObjId
  all = k.sftp.body.directories ++ k.sftp.body.files

  all-once : (x : ObjId) → count x all ≤ 1
  all-once x = omega (arith, count-append x k.sftp.body.directories k.sftp.body.files, k.once x)

  all-inside : (x : ObjId) → Mem x all → 0 < kept_by x k.sftp.body
  all-inside x m =
      omega (arith, count-append x k.sftp.body.directories k.sftp.body.files, Mem-count x all m)

  after :
      (total : List Resource) (w' : World)
      → Ended w id k.sftp.refs k.sftp.body total w'
      → Filed sid id shut held w'
  after total w' e = record {
    session = k.session;
    session_there = ap (λ t. t sid) e.sessions ∙ k.session_there;
    sftp = _;
    sftp_there = e.object.this;
    enough = k.enough;
    entries = λ x. elim (Bool-cases (0 == kept_by x k.sftp.body)) [
      | inl absent ↦
          rw (e.others x λ m. absurd (ground (arith, absent, all-inside x m)))
            (subst (λ n. UsedEntry (held x) n (w.handles x)) (ground (arith, absent)) (k.entries x))
      | inr present ↦
          let inside : 0 < kept_by x k.sftp.body = ground (arith, present) in
          rw (e.items x (member x inside))
            (taken_out-UsedEntry (held x) _ (w.handles x) (k.entries x) inside (k.once x))
    ];
    once = λ x. omega arith;
    fresh = λ x above.
        let gone = k.fresh x (omega (arith, above, e.next)) in
        e.others x (λ m. absurd (omega (arith, all-inside x m, unused x gone))) ∙ gone;
    stay = λ x is_shut. elim (Bool-cases (0 == kept_by x k.sftp.body)) [
      | inl absent ↦
          rw (e.others x λ m. absurd (ground (arith, absent, all-inside x m))) (k.stay x is_shut)
      | inr present ↦
          rw (e.items x (member x (ground (arith, present))))
            (closed-taken_out (w.handles x) (k.stay x is_shut))
    ];
  }
    where
      member : (x : ObjId) → 0 < kept_by x k.sftp.body → Mem x all
      member x inside =
          count-Mem x all
            (omega (arith, count-append x k.sftp.body.directories k.sftp.body.files, inside))

      unused : (x : ObjId) → w.handles x ≡ none → kept_by x k.sftp.body ≡ 0
      unused x gone =
          let none_left : held x + kept_by x k.sftp.body ≡ 0 =
            subst (UsedEntry (held x) (kept_by x k.sftp.body)) gone (k.entries x) in
          omega (arith, none_left)

  shutdown_sftp-Filed :
      (env : Env) → Returns (λ _ w'. Filed sid id shut held w') (shutdown_sftp id env w)
  shutdown_sftp-Filed env = elim (Bool-cases (is_null_ptr k.sftp.body.sftp)) [
    | inl shut_down ↦ rw (shutdown_null env w id k.sftp k.sftp_there shut_down) (returns k)
    | inr live ↦
        mono
          (shutdown_sftp-Ended env w id k.sftp.refs k.sftp.body (λ x. handle_of (w.handles x))
            k.sftp_there live (count-Nodup all all-once)
            λ x m. used-Holds (held x) _ w x (k.entries x) (all-inside x m))
          λ _ w' e. after _ w' e
  ]

module _ (env : Env) (sid id : ObjId) (shut : ObjId → Bool) (held : Held) (w : World)
    (k : Filed sid id shut held w) where
  -- The session's set gives its reference to the SFTP object back, which is not the last one.
  forgets :
      (refs : ℕ) (b : Sftp)
      → w.sftps id ≡ some (record { refs = refs; body = b })
      → k.sftp ≡ record { refs = refs; body = b }
      → contains id k.session.body.sftps ≡ true
      → Returns
          (λ _ w'. Filed sid id shut held w')
          ((set_sftps sid (discard id k.session.body.sftps)
              >> release sftp_slot id (dealloc_sftp id))
            env w)
  unfolding modify ◌>>◌
  forgets zero b here same present = absurd (omega (arith, k.enough, ap (λ o. o.refs) same))
  forgets (suc zero) b here same present = absurd (
      omega (arith, k.enough, ap (λ o. o.refs) same, count-discard id k.session.body.sftps present))
  forgets (suc (suc n)) b here same present =
      let ss = k.session.body.sftps in
      let o' = record k.session { body = record k.session.body { sftps = discard id ss } } in
      let w1 = record w { sessions = write w.sessions sid (some o') } in
      rw (k.session_there, release-kept sftp_slot env w1 id (dealloc_sftp id) b n here)
        (returns record {
          session = o';
          session_there = write-same w.sessions sid _;
          sftp = record { refs = suc n; body = b };
          sftp_there = write-same w.sftps id _;
          enough = omega (arith, k.enough, ap (λ o. o.refs) same, count-discard id ss present);
          entries =
              subst (λ o. (x : ObjId) → UsedEntry (held x) (kept_by x o.body) (w.handles x)) same
                k.entries;
          once = subst (λ o. (x : ObjId) → kept_by x o.body ≤ 1) same k.once;
          fresh = k.fresh;
          stay = k.stay;
        })

  discards :
      Returns
        (λ _ w'. Filed sid id shut held w')
        (discard_from k.session.body.sftps
          (set_sftps sid)
          id
          (release sftp_slot id (dealloc_sftp id))
          env
          w)
  unfolding discard_from pure
  discards = elim (Bool-cases (contains id k.session.body.sftps)) [
    | inl present ↦ rw present (forgets k.sftp.refs k.sftp.body k.sftp_there refl present)
    | inr absent ↦ rw absent (returns k)
  ]

  pub sftp_shutdown-Filed :
      Returns (λ _ w'. Filed sid id shut held w') (sftp_shutdown sid (some id) env w)
  unfolding sftp_shutdown load pure ◌>>=◌
  sftp_shutdown-Filed = rw k.session_there (
      chain env _ _ w discards λ _ w1 k1.
        chain env _ _ w1 (shutdown_sftp-Filed sid id shut held w1 k1 env) λ _ w2 k2. returns k2)
