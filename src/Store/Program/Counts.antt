-- ===== src/Store/Program/Counts.antt =====
-- The invariant of such a program: each channel object has as many references as the program and the
-- session's set of src/session.c have to it.
use pylibssh.Prelude.{
  ℕ, suc, ◌+◌, ◌-◌, ◌≤◌, ◌<◌, ◌≡◌, ◌≢◌, refl, sym, ◌∙◌, subst, true, false, Option, none, some,
  List, [], ◌∷◌, ◌==◌, ==_iff, Bool-cases, inl, inr, arith, if◌then◌else◌,
}
use pylibssh.Host.{Host}
use pylibssh.Host.Types.{ObjId, is_null_ptr}
use pylibssh.Handles.{Session, Channel}
use pylibssh.Store.Run.{Counted, World}
use pylibssh.Store.Sets.{contains, discard}
use pylibssh.Store.Entries.{apart, Changed}
use pylibssh.Store.Program.{Held, with_ref, without_ref}

-- How often an object is in a list.
abbrev pub count : ObjId → List ObjId → ℕ
count x [] = 0
count x (y ∷ ys) = (if x == y then 1 else 0) + count x ys

-- How often the set of a session object has an object.
abbrev pub in_set : ObjId → Option (Counted Session) → ℕ
in_set x none = 0
in_set x (some o) = count x o.body.channels

pub count-head : (c : ObjId) (cs : List ObjId) → count c (c ∷ cs) ≡ suc (count c cs)
count-head c cs = ground arith

pub count-head_ne : (x c : ObjId) (cs : List ObjId) → x ≢ c → count x (c ∷ cs) ≡ count x cs
count-head_ne x c cs differ = ground arith

pub with_ref-same : (c : ObjId) (held : Held) → with_ref c held c ≡ suc (held c)
with_ref-same c held = ground arith

pub with_ref-other : (c : ObjId) (held : Held) (x : ObjId) → x ≢ c → with_ref c held x ≡ held x
with_ref-other c held x differ = ground arith

pub without_ref-other :
    (c : ObjId) (held : Held) (x : ObjId) → x ≢ c → without_ref c held x ≡ held x
without_ref-other c held x differ = ground arith

pub without_ref-same : (c : ObjId) (held : Held) → without_ref c held c ≡ held c - 1
without_ref-same c held = ground arith

pub count-contains : (x : ObjId) (ys : List ObjId) → contains x ys ≡ false → count x ys ≡ 0
unfolding contains
count-contains x [] absent = refl
count-contains x (y ∷ ys) absent = ground (arith, count-contains x ys)

pub count-discard :
    (x : ObjId) (ys : List ObjId) → contains x ys ≡ true → count x ys ≡ suc (count x (discard x ys))
unfolding contains discard
count-discard x [] present = ground (arith, present)
count-discard x (y ∷ ys) present = ground (arith, count-discard x ys)

pub count-discard_ne : (x c : ObjId) (ys : List ObjId) → x ≢ c → count x (discard c ys) ≡ count x ys
unfolding discard
count-discard_ne x c [] differ = refl
count-discard_ne x c (y ∷ ys) differ = ground (arith, count-discard_ne x c ys)

-- What holds of an object that the program has `h` references to and the set has `n`: an object in
-- the set is open.
pub record Live (h n : ℕ) (k : Counted Channel) : Type 0 where
  pub adds_up : k.refs ≡ h + n
  pub is_counted : 0 < k.refs
  pub is_open : 0 < n → is_null_ptr k.body.channel ≡ false

abbrev pub Entry : ℕ → ℕ → Option (Counted Channel) → Type 0
Entry h n none = h + n ≡ 0
Entry h n (some k) = Live h n k

pub there :
    (h n : ℕ) (e : Option (Counted Channel))
    → Entry h n e
    → 0 < h
    → (k : Counted Channel) × (e ≡ some k) × Live h n k
there h n none zero_refs some_refs = absurd (omega (arith, zero_refs, some_refs))
there h n (some k) l some_refs = (k, refl, l)

pub record Counts (id : ObjId) (held : Held) (w : World) : Type 0 where
  pub session : Counted Session
  pub is_there : w.sessions id ≡ some session
  pub entries : (x : ObjId) → Entry (held x) (count x session.body.channels) (w.channels x)
  pub once : (x : ObjId) → count x session.body.channels ≤ 1
  pub no_sftps : session.body.sftps ≡ []
  pub no_listeners : session.body.listeners ≡ []
  pub fresh : (x : ObjId) → w.next ≤ x → w.channels x ≡ none

module _ {id : ObjId} {held : Held} {w : World} (k : Counts id held w) where
  pub Counts-host : (h : Host) → Counts id held (record w { host = h })
  Counts-host h = record {
    session = k.session;
    is_there = k.is_there;
    entries = k.entries;
    once = k.once;
    no_sftps = k.no_sftps;
    no_listeners = k.no_listeners;
    fresh = k.fresh;
  }

  -- The object that the program has a reference to.
  pub Counts-there :
      (c : ObjId)
      → 0 < held c
      → (o : Counted Channel) × (w.channels c ≡ some o)
        × Live (held c) (count c k.session.body.channels) o
  Counts-there c = there _ _ _ (k.entries c)

  pub Counts-bound : (c : ObjId) (o : Counted Channel) → w.channels c ≡ some o → c < w.next
  Counts-bound c o here = ground (arith, k.fresh c, here)

  -- At most the entry of one object, its references and its place in the set change.
  pub Counts-change :
      (c : ObjId) (held' : Held) (w' : World) (o : Counted Session) (e : Option (Counted Channel))
      → w'.sessions id ≡ some o
      → o.body.sftps ≡ k.session.body.sftps
      → o.body.listeners ≡ k.session.body.listeners
      → ((x : ObjId) → x ≢ c → held' x ≡ held x)
      → ((x : ObjId) → x ≢ c → count x o.body.channels ≡ count x k.session.body.channels)
      → Changed w.channels c e w'.channels
      → Entry (held' c) (count c o.body.channels) e
      → count c o.body.channels ≤ 1
      → w.next ≤ w'.next
      → c < w'.next
      → Counts id held' w'
  Counts-change c held' w' o e session sftps listeners same_held same_count changed entry once grows
        bound =
      record {
        session = o;
        is_there = session;
        entries = λ x. elim (Bool-cases (x == c)) [
          | inl same ↦
              subst (λ y. Entry (held' y) (count y o.body.channels) (w'.channels y))
                (sym ((==_iff x c).0 same)) (rw changed.this entry)
          | inr differ ↦
              let other = apart x c differ in
              rw (same_held x other, same_count x other, changed.others x other) (k.entries x)
        ];
        once = λ x. elim (Bool-cases (x == c)) [
          | inl same ↦ subst (λ y. count y o.body.channels ≤ 1) (sym ((==_iff x c).0 same)) once
          | inr differ ↦ omega (arith, k.once x, same_count x (apart x c differ))
        ];
        no_sftps = sftps ∙ k.no_sftps;
        no_listeners = listeners ∙ k.no_listeners;
        fresh = λ x above.
            let other : x ≢ c = λ same. omega (arith, same, above, bound) in
            changed.others x other ∙ k.fresh x (omega (arith, above, grows));
      }
