-- ===== src/Dir/Lookup.antt =====
-- The dictionary that `list_files` of src/sftpdir.c returns, as a map from names.
use pylibssh.Prelude.{
  ℕ, ◌+◌, ◌≤◌, ◌<◌, ◌≡◌, refl, sym, ap, subst, ◌∙◌, Bool, true, false, ◌==◌, ==_iff, Bool-cases,
  inl, inr, Option, none, some, List, [], ◌∷◌, length, arith, if◌then◌else◌,
}
use pylibssh.Host.{Env, Host}
use pylibssh.Host.Types.{Bytes, Attributes, StatDict, is_null_ptr, listing}
use pylibssh.Stat.{sftp_attrs_to_statdict}
use pylibssh.Handles.{Handle}
use pylibssh.Dir.{bytes_eq, set_item, list_files}
use pylibssh.Dir.Listing.{Serves, dict_of, list_files-dict_of}

-- The value at a key.
abbrev pub get_item : Bytes → List (Bytes × StatDict) → Option StatDict
get_item name [] = none
get_item name ((key, stat) ∷ dict) = if bytes_eq name key then some stat else get_item name dict

-- How often a key is in the dictionary.
abbrev pub key_count : Bytes → List (Bytes × StatDict) → ℕ
key_count name [] = 0
key_count name ((key, stat) ∷ dict) = (if bytes_eq name key then 1 else 0) + key_count name dict

abbrev pub or_else : Option StatDict → Option StatDict → Option StatDict
or_else none other = other
or_else (some stat) other = some stat

-- What a directory says of a name: the attributes of its last entry with that name.
abbrev pub latest : Bytes → List (Bytes × Attributes) → Option StatDict
latest name [] = none
latest name ((key, attrs) ∷ rest) =
    or_else (latest name rest)
      (if bytes_eq name key then some (sftp_attrs_to_statdict attrs) else none)

bytes_eq_sound : (xs ys : Bytes) → bytes_eq xs ys ≡ true → xs ≡ ys
bytes_eq_sound [] [] same = refl
bytes_eq_sound [] (y ∷ ys) same = absurd (ground (arith, same))
bytes_eq_sound (x ∷ xs) [] same = absurd (ground (arith, same))
bytes_eq_sound (x ∷ xs) (y ∷ ys) same = elim (Bool-cases (x == y)) [
  | inl first ↦
      let rest : xs ≡ ys = bytes_eq_sound xs ys (simp (first) at same) in
      ap (λ z. z ∷ xs) ((==_iff x y).0 first) ∙ ap (◌∷◌ y) rest
  | inr differ ↦ absurd (ground (arith, differ, same))
]

bytes_eq_refl : (xs : Bytes) → bytes_eq xs xs ≡ true
bytes_eq_refl [] = refl
bytes_eq_refl (x ∷ xs) = rw ((==_iff x x).1 refl) (bytes_eq_refl xs)

-- Where two keys are equal, a third is equal to both or to none.
bytes_eq_same : (name a b : Bytes) → bytes_eq a b ≡ true → bytes_eq name a ≡ bytes_eq name b
bytes_eq_same name a b same = ap (bytes_eq name) (bytes_eq_sound a b same)

differ_same :
    (name key k : Bytes)
    → bytes_eq key k ≡ false
    → bytes_eq name k ≡ true
    → bytes_eq name key ≡ false
differ_same name key k differ this = elim (Bool-cases (bytes_eq name key)) [
  | inl same ↦
      let e : bytes_eq key k ≡ true =
        subst (λ n. bytes_eq n k ≡ true) (bytes_eq_sound name key same) this in
      absurd (ground (arith, e, differ))
  | inr other ↦ other
]

get_item-set_item :
    (name key : Bytes) (stat : StatDict) (dict : List (Bytes × StatDict))
    → get_item name (set_item key stat dict)
      ≡ (if bytes_eq name key then some stat else get_item name dict)
unfolding set_item
get_item-set_item name key stat [] = refl
get_item-set_item name key stat ((k, old) ∷ dict) = elim (Bool-cases (bytes_eq key k)) [
  | inl same ↦
      let e = bytes_eq_same name key k same in
      elim (Bool-cases (bytes_eq name k)) [
        | inl this ↦ simp (same, e, this) refl
        | inr other ↦ simp (same, e, other) refl
      ]
  | inr differ ↦
      let rest = get_item-set_item name key stat dict in
      elim (Bool-cases (bytes_eq name k)) [
        | inl this ↦
            let e : bytes_eq name key ≡ false = differ_same name key k differ this in
            simp (differ, this, e) refl
        | inr other ↦ simp (differ, other) rest
      ]
]

key_count-set_item_ne :
    (name key : Bytes) (stat : StatDict) (dict : List (Bytes × StatDict))
    → bytes_eq name key ≡ false
    → key_count name (set_item key stat dict) ≡ key_count name dict
unfolding set_item
key_count-set_item_ne name key stat [] other = rw other refl
key_count-set_item_ne name key stat ((k, old) ∷ dict) other = elim (Bool-cases (bytes_eq key k)) [
  | inl same ↦ rw same refl
  | inr differ ↦ rw differ (
      ap (λ n. (if bytes_eq name k then 1 else 0) + n)
        (key_count-set_item_ne name key stat dict other))
]

key_count-set_item :
    (name key : Bytes) (stat : StatDict) (dict : List (Bytes × StatDict))
    → key_count name dict ≤ 1
    → key_count name (set_item key stat dict) ≤ 1
unfolding set_item
key_count-set_item name key stat [] once = elim (Bool-cases (bytes_eq name key)) [
  | inl same ↦ rw same (omega arith)
  | inr differ ↦ rw differ (omega arith)
]
key_count-set_item name key stat ((k, old) ∷ dict) once = elim (Bool-cases (bytes_eq key k)) [
  | inl same ↦ rw same once
  | inr differ ↦ elim (Bool-cases (bytes_eq name k)) [
    | inl this ↦
        rw (differ, key_count-set_item_ne name key stat dict (differ_same name key k differ this))
          once
    | inr other ↦
        let rest = key_count-set_item name key stat dict (omega (arith, simp (other) at once)) in
        rw (differ, other) (omega (arith, rest))
  ]
]

or_else_assoc : (a b c : Option StatDict) → or_else (or_else a b) c ≡ or_else a (or_else b c)
or_else_assoc none b c = refl
or_else_assoc (some x) b c = refl

or_else_if :
    (b : Bool) (x : StatDict) (other : Option StatDict)
    → (if b then some x else other) ≡ or_else (if b then some x else none) other
or_else_if true x other = refl
or_else_if false x other = refl

get_item-dict_of :
    (name : Bytes) (dict : List (Bytes × StatDict)) (entries : List (Bytes × Attributes))
    → get_item name (dict_of dict entries) ≡ or_else (latest name entries) (get_item name dict)
get_item-dict_of name dict [] = refl
get_item-dict_of name dict ((key, attrs) ∷ rest) =
    get_item-dict_of name (set_item key (sftp_attrs_to_statdict attrs) dict) rest
    ∙ ap (or_else (latest name rest)) (
        get_item-set_item name key (sftp_attrs_to_statdict attrs) dict
        ∙ or_else_if (bytes_eq name key) (sftp_attrs_to_statdict attrs) (get_item name dict))
    ∙ sym (or_else_assoc (latest name rest) _ (get_item name dict))

key_count-dict_of :
    (name : Bytes) (dict : List (Bytes × StatDict)) (entries : List (Bytes × Attributes))
    → key_count name dict ≤ 1
    → key_count name (dict_of dict entries) ≤ 1
key_count-dict_of name dict [] once = once
key_count-dict_of name dict ((key, attrs) ∷ rest) once =
    key_count-dict_of name (set_item key (sftp_attrs_to_statdict attrs) dict) rest
      (key_count-set_item name key (sftp_attrs_to_statdict attrs) dict once)

or_else-none : (a : Option StatDict) → or_else a none ≡ a
or_else-none none = refl
or_else-none (some x) = refl

-- `list_files` on an open directory out of which libssh2 reads some entries, of whatever number, and
-- then says that there are no more: on fuel of more than their number it returns a dictionary that is
-- the map of the directory. For every name it has the attributes of the last entry with that name,
-- or nothing if there is none, and it has no name twice.
pub list_files-latest :
    (env : Env) (self : Handle) (h : Host) (fuel : ℕ) (entries : List (Bytes × Attributes))
    → is_null_ptr self.handle ≡ false
    → Serves env self.handle h entries
    → length entries < fuel
    → (dict : List (Bytes × StatDict)) × ((list_files fuel self env h).0 ≡ some (listing dict))
      × ((name : Bytes) → get_item name dict ≡ latest name entries)
      × ((name : Bytes) → key_count name dict ≤ 1)
list_files-latest env self h fuel entries live s enough = (
  dict_of [] entries,
  (list_files-dict_of env self h fuel entries live s enough).0,
  λ name. get_item-dict_of name [] entries ∙ or_else-none (latest name entries),
  λ name. key_count-dict_of name [] entries (omega arith),
)
