-- ===== src/Store/Files/Counts.antt =====
-- The invariant of such a program: each file or directory object has as many references as the program
-- and the sets of the SFTP object of src/sftp.c have to it.
use pylibssh.Prelude.{
  ℕ, ◌+◌, ◌≤◌, ◌<◌, ◌≡◌, ◌≢◌, refl, sym, ◌∙◌, subst, Bool, true, false, Option, none, some, List,
  ◌==◌, ==_iff, Bool-cases, inl, inr, arith,
}
use pylibssh.Host.{Host}
use pylibssh.Host.Types.{ObjId, is_null_ptr}
use pylibssh.Handles.{Session, Sftp, Handle}
use pylibssh.Store.Run.{Counted, World}
use pylibssh.Store.Entries.{apart, Changed}
use pylibssh.Store.Program.{Held}
use pylibssh.Store.Program.Counts.{count}

-- How often the sets of an SFTP object have an object.
abbrev pub kept_by : ObjId → Sftp → ℕ
kept_by x s = count x s.directories + count x s.files

abbrev pub in_sets : ObjId → Option (Counted Sftp) → ℕ
in_sets x none = 0
in_sets x (some o) = kept_by x o.body

-- An object that is in memory and whose handle is closed.
abbrev pub closed : Option (Counted Handle) → Bool
closed none = false
closed (some k) = is_null_ptr k.body.handle

-- What holds of an object that the program has `h` references to and the sets have `n`: one without
-- references that is still in memory is closed.
pub record Used (h n : ℕ) (k : Counted Handle) : Type 0 where
  pub adds_up : k.refs ≡ h + n
  pub is_closed : k.refs ≡ 0 → is_null_ptr k.body.handle ≡ true

abbrev pub UsedEntry : ℕ → ℕ → Option (Counted Handle) → Type 0
UsedEntry h n none = h + n ≡ 0
UsedEntry h n (some k) = Used h n k

pub used :
    (h n : ℕ) (e : Option (Counted Handle))
    → UsedEntry h n e
    → 0 < h + n
    → (k : Counted Handle) × (e ≡ some k) × Used h n k
used h n none zero_refs some_refs = absurd (omega (arith, zero_refs, some_refs))
used h n (some k) l some_refs = (k, refl, l)

-- `shut` are objects that are closed for good.
pub record Filed (sid id : ObjId) (shut : ObjId → Bool) (held : Held) (w : World) : Type 0 where
  pub session : Counted Session
  pub session_there : w.sessions sid ≡ some session
  pub sftp : Counted Sftp
  pub sftp_there : w.sftps id ≡ some sftp
  pub enough : count id session.body.sftps < sftp.refs
  pub entries : (x : ObjId) → UsedEntry (held x) (kept_by x sftp.body) (w.handles x)
  pub once : (x : ObjId) → kept_by x sftp.body ≤ 1
  pub fresh : (x : ObjId) → w.next ≤ x → w.handles x ≡ none
  pub stay : (x : ObjId) → shut x ≡ true → closed (w.handles x) ≡ true

module _ {sid id : ObjId} {shut : ObjId → Bool} {held : Held} {w : World}
    (k : Filed sid id shut held w) where
  pub Filed-host : (h : Host) → Filed sid id shut held (record w { host = h })
  Filed-host h = record {
    session = k.session;
    session_there = k.session_there;
    sftp = k.sftp;
    sftp_there = k.sftp_there;
    enough = k.enough;
    entries = k.entries;
    once = k.once;
    fresh = k.fresh;
    stay = k.stay;
  }

  -- The object that the program has a reference to.
  pub Filed-there :
      (c : ObjId)
      → 0 < held c
      → (o : Counted Handle) × (w.handles c ≡ some o) × Used (held c) (kept_by c k.sftp.body) o
  Filed-there c has = used _ _ _ (k.entries c) (omega (arith, has))

  pub Filed-bound : (c : ObjId) (o : Counted Handle) → w.handles c ≡ some o → c < w.next
  Filed-bound c o here = ground (arith, k.fresh c, here)

  -- At most the entry of one object, its references and its place in the sets change.
  pub Filed-change :
      (c : ObjId) (held' : Held) (w' : World) (s : Sftp) (e : Option (Counted Handle))
      → w'.sessions ≡ w.sessions
      → w'.sftps id ≡ some (record { refs = k.sftp.refs; body = s })
      → ((x : ObjId) → x ≢ c → held' x ≡ held x)
      → ((x : ObjId) → x ≢ c → kept_by x s ≡ kept_by x k.sftp.body)
      → Changed w.handles c e w'.handles
      → UsedEntry (held' c) (kept_by c s) e
      → kept_by c s ≤ 1
      → (closed (w.handles c) ≡ true → closed e ≡ true)
      → w.next ≤ w'.next
      → c < w'.next
      → Filed sid id shut held' w'
  Filed-change c held' w' s e sessions sftp same_held same_count changed entry once keeps grows
        bound =
      record {
        session = k.session;
        session_there = rw sessions k.session_there;
        sftp = record { refs = k.sftp.refs; body = s };
        sftp_there = sftp;
        enough = k.enough;
        entries = λ x. elim (Bool-cases (x == c)) [
          | inl same ↦
              subst (λ y. UsedEntry (held' y) (kept_by y s) (w'.handles y))
                (sym ((==_iff x c).0 same)) (rw changed.this entry)
          | inr differ ↦
              let other = apart x c differ in
              rw (same_held x other, same_count x other, changed.others x other) (k.entries x)
        ];
        once = λ x. elim (Bool-cases (x == c)) [
          | inl same ↦ subst (λ y. kept_by y s ≤ 1) (sym ((==_iff x c).0 same)) once
          | inr differ ↦ omega (arith, k.once x, same_count x (apart x c differ))
        ];
        fresh = λ x above.
            let other : x ≢ c = λ same. omega (arith, same, above, bound) in
            changed.others x other ∙ k.fresh x (omega (arith, above, grows));
        stay = λ x is_shut. elim (Bool-cases (x == c)) [
          | inl same ↦
              let e' = (==_iff x c).0 same in
              subst (λ y. closed (w'.handles y) ≡ true) (sym e')
                (rw changed.this
                  (keeps (subst (λ y. closed (w.handles y) ≡ true) e' (k.stay x is_shut))))
          | inr differ ↦ rw (changed.others x (apart x c differ)) (k.stay x is_shut)
        ];
      }

-- One of the sets of an SFTP object.
pub record SetOf : Type 0 where
  pub get : Sftp → List ObjId
  pub with_items : List ObjId → Sftp → Sftp
  pub kept_by-with_items :
      (x : ObjId) (xs : List ObjId) (s : Sftp)
      → kept_by x (with_items xs s) + count x (get s) ≡ kept_by x s + count x xs

abbrev pub directories_of : SetOf
directories_of = record {
  get = λ s. s.directories;
  with_items = λ xs s. record s { directories = xs };
  kept_by-with_items = λ x xs s. omega arith;
}

abbrev pub files_of : SetOf
files_of = record {
  get = λ s. s.files;
  with_items = λ xs s. record s { files = xs };
  kept_by-with_items = λ x xs s. omega arith;
}
