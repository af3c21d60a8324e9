-- ===== src/Store/Client/Tally.antt =====
-- Tables of objects with reference counts, and sums over the objects of a table.
use pylibssh.Prelude.{
  ℕ, zero, suc, ◌+◌, ◌≤◌, ◌<◌, ◌≡◌, ◌≢◌, refl, sym, ap, ◌∙◌, subst, Option, none, some, ◌==◌,
  ==_iff, Bool-cases, inl, inr, arith,
}
use pylibssh.Host.Types.{ObjId}
use pylibssh.Store.Run.{Counted, Table}
use pylibssh.Store.Entries.{apart, Changed, left_over}

-- An object has this many references; one that is not in memory has none, and of those in memory only
-- ones that `Stays` holds of can have none.
abbrev pub Tallied : {A : Type 0} → (A → Type 0) → ℕ → Option (Counted A) → Type 0
Tallied Stays n none = n ≡ 0
Tallied Stays n (some k) = (k.refs ≡ n) × (n ≡ 0 → Stays k.body)

-- Each object of a table has as many references as there are to it, and the numbers from `next` on are
-- free.
pub record Tally {A : Type 0} (Stays : ObjId → A → Type 0) (table : Table A) (refs : ObjId → ℕ)
    (next : ObjId) : Type 0 where
  pub entries : (x : ObjId) → Tallied (Stays x) (refs x) (table x)
  pub fresh : (x : ObjId) → next ≤ x → table x ≡ none

module _ {A : Type 0} (Stays : A → Type 0) where
  pub Tallied-left_over : (n : ℕ) (b : A) → Tallied Stays n (left_over n b)
  Tallied-left_over zero b = refl
  Tallied-left_over (suc n) b = (refl, λ e. absurd (omega (arith, e)))

  pub Tallied-there :
      (n : ℕ) (e : Option (Counted A))
      → Tallied Stays n e
      → 0 < n
      → (b : A) × (e ≡ some (record { refs = n; body = b }))
  Tallied-there n none l more = absurd (omega (arith, l, more))
  Tallied-there n (some k) l more =
      (k.body, ap (λ r. some (record { refs = r; body = k.body })) l.0)

module _ {A : Type 0} {Stays : ObjId → A → Type 0} {table : Table A} {refs : ObjId → ℕ}
    {next : ObjId} (t : Tally Stays table refs next) where
  pub Tally-same :
      (refs' : ObjId → ℕ) → ((x : ObjId) → refs' x ≡ refs x) → Tally Stays table refs' next
  Tally-same refs' same = record {
    entries = λ x. subst (λ n. Tallied (Stays x) n (table x)) (sym (same x)) (t.entries x);
    fresh = t.fresh;
  }

  pub Tally-later : (next' : ObjId) → next ≤ next' → Tally Stays table refs next'
  Tally-later next' later = record {
    entries = t.entries;
    fresh = λ x above. t.fresh x (omega (arith, above, later));
  }

  -- The object to which there is a reference.
  pub Tally-there :
      (c : ObjId) → 0 < refs c → (b : A) × (table c ≡ some (record { refs = refs c; body = b }))
  Tally-there c more = Tallied-there (Stays c) (refs c) (table c) (t.entries c) more

  pub Tally-bound : (c : ObjId) (o : Counted A) → table c ≡ some o → c < next
  Tally-bound c o here = ground (arith, t.fresh c, here)

  -- The entry of one object and the references to it change.
  pub Tally-change :
      (c : ObjId) (e : Option (Counted A)) (table' : Table A) (refs' : ObjId → ℕ)
      → Changed table c e table'
      → c < next
      → ((x : ObjId) → x ≢ c → refs' x ≡ refs x)
      → Tallied (Stays c) (refs' c) e
      → Tally Stays table' refs' next
  Tally-change c e table' refs' changed bound same entry = record {
    entries = λ x. elim (Bool-cases (x == c)) [
      | inl is_c ↦
          subst (λ y. Tallied (Stays y) (refs' y) (table' y)) (sym ((==_iff x c).0 is_c))
            (rw changed.this entry)
      | inr differ ↦
          let other = apart x c differ in rw (changed.others x other, same x other) (t.entries x)
    ];
    fresh =
        λ x above. changed.others x (λ is_c. omega (arith, is_c, above, bound)) ∙ t.fresh x above;
  }

-- More objects may be in memory without a reference.
Tallied-Stays :
    {A : Type 0} (Stays Stays' : A → Type 0) (n : ℕ) (e : Option (Counted A))
    → ((o : Counted A) → e ≡ some o → Stays o.body → Stays' o.body)
    → Tallied Stays n e
    → Tallied Stays' n e
Tallied-Stays Stays Stays' n none more l = l
Tallied-Stays Stays Stays' n (some k) more l = (l.0, λ zero_left. more k refl (l.1 zero_left))

pub Tally-Stays :
    {A : Type 0} {Stays Stays' : ObjId → A → Type 0} {table : Table A} {refs : ObjId → ℕ}
    {next : ObjId}
    → Tally Stays table refs next
    → ((x : ObjId) (o : Counted A) → table x ≡ some o → Stays x o.body → Stays' x o.body)
    → Tally Stays' table refs next
Tally-Stays {Stays = Stays} {Stays' = Stays'} {table = table} {refs = refs} t more = record {
  entries = λ x. Tallied-Stays (Stays x) (Stays' x) (refs x) (table x) (more x) (t.entries x);
  fresh = t.fresh;
}

-- The sum of a function over the numbers below a bound.
abbrev pub total : (ObjId → ℕ) → ObjId → ℕ
total f zero = 0
total f (suc n) = f n + total f n

module _ (f g : ObjId → ℕ) where
  pub total-same : (n : ObjId) → ((y : ObjId) → y < n → g y ≡ f y) → total g n ≡ total f n
  total-same zero same = refl
  total-same (suc n) same =
      omega (arith, same n (omega arith), total-same n λ y less. same y (omega (arith, less)))

  pub total-change :
      (c n : ObjId) → c < n → ((y : ObjId) → y ≢ c → g y ≡ f y) → total g n + f c ≡ total f n + g c
  total-change c zero less same = absurd (omega (arith, less))
  total-change c (suc n) less same = elim (Bool-cases (n == c)) [
    | inl here ↦
        let is_c = (==_iff n c).0 here in
        let rest = total-same n λ y under. same y λ e. omega (arith, e, under, is_c) in
        omega (arith, rest, ap f is_c, ap g is_c)
    | inr other ↦
        let differ = apart n c other in
        omega (arith, same n differ, total-change c n (omega (arith, less, differ)) same)
  ]

pub total-later :
    (f : ObjId → ℕ) (n n' : ObjId)
    → n ≤ n'
    → ((y : ObjId) → n ≤ y → f y ≡ 0)
    → total f n' ≡ total f n
total-later f n zero later zeros =
    let none_left : 0 ≡ n = omega (arith, later) in ap (total f) none_left
total-later f n (suc m) later zeros = elim (Bool-cases (n == suc m)) [
  | inl here ↦ ap (total f) (sym ((==_iff n (suc m)).0 here))
  | inr other ↦
      let differ = apart n (suc m) other in
      let under : n ≤ m = omega (arith, later, differ) in
      omega (arith, zeros m under, total-later f n m under zeros)
]
