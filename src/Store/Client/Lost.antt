-- ===== src/Store/Client/Lost.antt =====
-- References to channel objects that `scp_recv` of src/session.c makes and that nothing gives back: they
-- stay as many, whatever else the program gains or gives back.
use pylibssh.Prelude.{◌+◌, ◌<◌, ◌≡◌, ◌==◌, refl, sym, subst, Bool-cases, inl, inr, arith, ==_iff}
use pylibssh.Host.Types.{ObjId, Value}
use pylibssh.Store.Program.{Held, gain, with_ref, without_ref}
use pylibssh.Store.Client.{gain_pair, gain_twice}

pub gain-lost :
    (v : Value) (held lost : Held) (y : ObjId)
    → gain v held y + lost y ≡ gain v (λ z. held z + lost z) y
gain-lost Value.null held lost y = refl
gain-lost Value.py_none held lost y = refl
gain-lost (Value.int n) held lost y = refl
gain-lost (Value.ints ns) held lost y = refl
gain-lost (Value.str t) held lost y = refl
gain-lost (Value.bytes t) held lost y = refl
gain-lost (Value.sized_bytes n t) held lost y = refl
gain-lost (Value.code_and_text n t) held lost y = refl
gain-lost (Value.stat d) held lost y = refl
gain-lost (Value.entry t d) held lost y = refl
gain-lost (Value.listing xs) held lost y = refl
gain-lost (Value.methods xs) held lost y = refl
gain-lost (Value.object c) held lost y = ground arith
gain-lost (Value.object_and_stat v d) held lost y = refl
gain-lost (Value.raw_pointer p) held lost y = refl

pub gain_pair-lost :
    (v : Value) (held lost : Held) (y : ObjId)
    → gain_pair v held y + gain_pair v lost y ≡ gain_twice v (λ z. held z + lost z) y
gain_pair-lost Value.null held lost y = refl
gain_pair-lost Value.py_none held lost y = refl
gain_pair-lost (Value.int n) held lost y = refl
gain_pair-lost (Value.ints ns) held lost y = refl
gain_pair-lost (Value.str t) held lost y = refl
gain_pair-lost (Value.bytes t) held lost y = refl
gain_pair-lost (Value.sized_bytes n t) held lost y = refl
gain_pair-lost (Value.code_and_text n t) held lost y = refl
gain_pair-lost (Value.stat d) held lost y = refl
gain_pair-lost (Value.entry t d) held lost y = refl
gain_pair-lost (Value.listing xs) held lost y = refl
gain_pair-lost (Value.methods xs) held lost y = refl
gain_pair-lost (Value.object c) held lost y = refl
gain_pair-lost (Value.raw_pointer p) held lost y = refl
gain_pair-lost (Value.object_and_stat v d) held lost y = go v
  where
    go :
        (v : Value)
        → gain_pair (Value.object_and_stat v d) held y
            + gain_pair (Value.object_and_stat v d) lost y
          ≡ gain_twice (Value.object_and_stat v d) (λ z. held z + lost z) y
    go Value.null = refl
    go Value.py_none = refl
    go (Value.int n) = refl
    go (Value.ints ns) = refl
    go (Value.str t) = refl
    go (Value.bytes t) = refl
    go (Value.sized_bytes n t) = refl
    go (Value.code_and_text n t) = refl
    go (Value.stat e) = refl
    go (Value.entry t e) = refl
    go (Value.listing xs) = refl
    go (Value.methods xs) = refl
    go (Value.object c) = ground arith
    go (Value.raw_pointer p) = refl
    go (Value.object_and_stat u e) = refl

pub with_ref-lost :
    (c : ObjId) (held lost : Held) (y : ObjId)
    → with_ref c held y + lost y ≡ with_ref c (λ z. held z + lost z) y
with_ref-lost c held lost y = ground arith

pub without_ref-lost :
    (c : ObjId) (held lost : Held) (y : ObjId)
    → 0 < held c
    → with_ref c (λ z. without_ref c held z + lost z) y ≡ held y + lost y
without_ref-lost c held lost y has = elim (Bool-cases (y == c)) [
  | inl same ↦
      subst (λ z. with_ref c (λ u. without_ref c held u + lost u) z ≡ held z + lost z)
        (sym ((==_iff y c).0 same)) (ground (arith, has))
  | inr differ ↦ ground (arith, differ)
]
