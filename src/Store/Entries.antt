-- ===== src/Store/Entries.antt =====
-- Entries of the memory: how one changes when a reference is given back, and those of the objects of
-- a Python set while a loop takes them out.
use mathlib.Core.List.{
  Mem, Nodup, Perm, Nodup-cons, mem-cons_self, mem-cons_of_mem, mem_of_ne_of_mem, not-mem-nil,
}
use mathlib.Core.List.Perm
use pylibssh.Prelude.{
  ℕ, zero, suc, ◌≡◌, ◌≢◌, refl, sym, ◌∙◌, subst, Option, some, none, ◌==◌, ==_iff, Bool-cases, inl,
  inr, arith, List, [], ◌∷◌, false,
}
use pylibssh.Host.{Env}
use pylibssh.Host.Types.{ObjId}
use pylibssh.Store.Run.{Counted, Cmd, Table, World, Slot, write-same, ok, write, release, drop_ref}
use pylibssh.Store.Returns.{Returns, returns}

pub write-differ :
    {A : Type 0} (table : Table A) (id : ObjId) (entry : Option (Counted A)) (x : ObjId)
    → x ≢ id
    → write table id entry x ≡ table x
write-differ table id entry x other = elim (Bool-cases (x == id)) [
  | inl same ↦ absurd (other ((==_iff x id).0 same))
  | inr differ ↦ rw differ refl
]

pub apart : (x y : ObjId) → (x == y) ≡ false → x ≢ y
apart x y differ = ground arith

-- The entry of an object that is left with a number of references.
abbrev pub left_over : {A : Type 0} → ℕ → A → Option (Counted A)
left_over zero b = none
left_over (suc n) b = some (record { refs = suc n; body = b })

-- The entry of an object changes, and no other one.
pub record Changed {A : Type 0} (table : Table A) (id : ObjId) (entry : Option (Counted A))
    (table' : Table A) : Type 0 where
  pub others : (x : ObjId) → x ≢ id → table' x ≡ table x
  pub this : table' id ≡ entry

module _ {A : Type 0} where
  pub write-Changed :
      (table : Table A) (id : ObjId) (entry : Option (Counted A))
      → Changed table id entry (write table id entry)
  write-Changed table id entry = record {
    others = write-differ table id entry;
    this = write-same table id entry;
  }

  pub Changed-Changed :
      {table table' table'' : Table A} {id : ObjId} {e e' : Option (Counted A)}
      → Changed table id e table'
      → Changed table' id e' table''
      → Changed table id e' table''
  Changed-Changed c d = record {
    others = λ x other. d.others x other ∙ c.others x other;
    this = d.this;
  }

-- `all` are the objects of a set at the start of a loop, and `ids` are left.
pub record Kept {A : Type 0} (before after start : ObjId → Option (Counted A))
    (all ids : List ObjId) (table : Table A) : Type 0 where
  pub distinct : Nodup ids
  pub held : (x : ObjId) → Mem x ids → table x ≡ before x
  pub inside : (x : ObjId) → Mem x ids → Mem x all
  pub outside : (x : ObjId) → ¬ Mem x all → table x ≡ start x
  pub done : (x : ObjId) → Mem x all → ¬ Mem x ids → table x ≡ after x

module _ {A : Type 0} {before after : ObjId → Option (Counted A)} {all : List ObjId} where
  pub Kept-start :
      {table : Table A}
      → Nodup all
      → ((x : ObjId) → Mem x all → table x ≡ before x)
      → Kept before after table all all table
  Kept-start distinct held = record {
    distinct = distinct;
    held = held;
    inside = λ x m. m;
    outside = λ x out. refl;
    done = λ x m out. absurd (out m);
  }

module _ {A : Type 0} {before after start : ObjId → Option (Counted A)} {all : List ObjId} where
  pub Kept-end :
      {table : Table A}
      → Kept before after start all [] table
      → (x : ObjId) → Mem x all
      → table x ≡ after x
  Kept-end k x m = k.done x m not-mem-nil

  pub Kept-inside :
      {ids rest : List ObjId} {item : ObjId} {table : Table A}
      → Kept before after start all ids table
      → Perm ids (item ∷ rest)
      → Mem item all
  Kept-inside {item = item} k p = k.inside item ((Perm.mem_iff p).1 mem-cons_self)

  pub Kept-round :
      {ids rest : List ObjId} {item : ObjId} {table table' : Table A}
      → Kept before after start all ids table
      → Perm ids (item ∷ rest)
      → Changed table item (after item) table'
      → Kept before after start all rest table'
  Kept-round {ids} {rest} {item} {table} {table'} k p c =
      let (new, distinct) = Nodup-cons.0 (Perm.nodup p k.distinct) in
      record {
        distinct = distinct;
        held = λ x m.
            let differ : x ≢ item = λ same. new (subst (λ y. Mem y rest) same m) in
            c.others x differ ∙ k.held x ((Perm.mem_iff p).1 (mem-cons_of_mem item m));
        inside = λ x m. k.inside x ((Perm.mem_iff p).1 (mem-cons_of_mem item m));
        outside = λ x out.
            c.others x (λ same. out (subst (λ y. Mem y all) (sym same) (Kept-inside k p)))
            ∙ k.outside x out;
        done = λ x m out. elim (Bool-cases (x == item)) [
          | inl same ↦ subst (λ y. table' y ≡ after y) (sym ((==_iff x item).0 same)) c.this
          | inr differ ↦
              let other = apart x item differ in
              c.others x other
              ∙ k.done x m (λ inside. out (mem_of_ne_of_mem other ((Perm.mem_iff p).0 inside)))
        ];
      }

  pub Kept-first :
      {ids rest : List ObjId} {item : ObjId} {table : Table A}
      → Kept before after start all ids table
      → Perm ids (item ∷ rest)
      → table item ≡ before item
  Kept-first {item = item} k p = k.held item ((Perm.mem_iff p).1 mem-cons_self)

-- A reference is given back, and only the table of the object's kind changes.
pub record Given {A : Type 0} (slot : Slot A) (id : ObjId) (entry : Option (Counted A))
    (w w' : World) : Type 0 where
  pub table : Table A
  pub only : w' ≡ slot.update w table
  pub changed : Changed (slot.table w) id entry table

module _ {A : Type 0} (slot : Slot A) (env : Env) (w : World) (id : ObjId) (d : Cmd (Unit {0}))
    (b : A) where
  pub release-last :
      slot.table w id ≡ some (record { refs = 1; body = b })
      → release slot id d env w
        ≡ d env (slot.update w (write (slot.table w) id (some (record { refs = 0; body = b }))))
  unfolding release drop_ref
  release-last here = simp (here, release, drop_ref) refl

  pub release-kept :
      (n : ℕ)
      → slot.table w id ≡ some (record { refs = suc (suc n); body = b })
      → release slot id d env w
        ≡ ok tt (slot.update w (write (slot.table w) id (left_over (suc n) b)))
  unfolding release drop_ref
  release-kept n here =
      let more : (suc n == 0) ≡ false = ground arith in simp (here, more, release, drop_ref) refl

  -- A function `_dealloc` that only destroys the object.
  pub release-Given :
      (n : ℕ)
      → slot.table w id ≡ some (record { refs = suc n; body = b })
      → ((t : Table A)
          → t id ≡ some (record { refs = 0; body = b })
          → d env (slot.update w t) ≡ ok tt (slot.update w (write t id none)))
      → Returns (λ _ w'. Given slot id (left_over n b) w w') (release slot id d env w)
  release-Given zero here destroys =
      let table = write (slot.table w) id (some (record { refs = 0; body = b })) in
      rw (release-last here, destroys table (write-same (slot.table w) id _))
        (returns record {
          table = write table id none;
          only = refl;
          changed =
              Changed-Changed (write-Changed (slot.table w) id _) (write-Changed table id none);
        })
  release-Given (suc n) here destroys =
      rw (release-kept n here)
        (returns record { table = _; only = refl; changed = write-Changed _ id _ })
