-- ===== src/Store/Client/State.antt =====
-- The invariant of a program with all objects of a session: each object has as many references as the
-- program and the sets of src/session.c and src/sftp.c have to it.
use pylibssh.Prelude.{
  ℕ, suc, ◌+◌, ◌<◌, ◌≡◌, ◌≢◌, sym, ap, subst, true, Option, none, some, List, [], ◌==◌, ==_iff,
  Bool-cases, inl, inr, arith, Bool,
}
use pylibssh.Host.{Host}
use pylibssh.Host.Types.{ObjId, is_null_ptr}
use pylibssh.Handles.{Session, Channel, Listener, Sftp, Handle}
use pylibssh.Store.Run.{Counted, Table, World, write, write-same}
use pylibssh.Store.Entries.{apart, Changed}
use pylibssh.Store.Program.{Held}
use pylibssh.Store.Program.Counts.{count}
use pylibssh.Store.Files.Counts.{in_sets}
use pylibssh.Store.Client.Tally.{
  Tallied, Tally, Tally-same, Tally-Stays, Tally-later, Tally-change, total, total-change,
  total-later,
}

-- How many references there are to each object but for those of the sets, and which SFTP objects are in their
-- `tp_dealloc`.
pub record Refs : Type 0 where
  pub channels : Held
  pub listeners : Held
  pub sftps : Held
  pub handles : Held
  pub ending : ObjId → Bool

-- All references to channels but those of the sets: some of them are lost.
abbrev pub with_lost : Refs → Held → Refs
with_lost refs lost = record refs { channels = λ x. refs.channels x + lost x }

-- How often the sets of all SFTP objects have an object.
abbrev pub in_all_sets : Table Sftp → ObjId → ObjId → ℕ
in_all_sets table next x = total (λ y. in_sets x (table y)) next

-- Which objects may be in memory without a reference: no channel and no listener, and of files and
-- directories the closed ones. An SFTP object is there during its `tp_dealloc`.
abbrev pub NoChannel : ObjId → Channel → Type 0
NoChannel x b = ⊥

abbrev pub NoListener : ObjId → Listener → Type 0
NoListener x b = ⊥

abbrev pub IsEnding : (ObjId → Bool) → ObjId → Sftp → Type 0
IsEnding ending x b = ending x ≡ true

abbrev pub IsClosed : ObjId → Handle → Type 0
IsClosed x b = is_null_ptr b.handle ≡ true

-- An SFTP object that is shut down keeps nothing.
abbrev pub KeepsNothing : Option (Counted Sftp) → Type 0
KeepsNothing none = Unit {0}
KeepsNothing (some o) =
    is_null_ptr o.body.sftp ≡ true → (o.body.directories ≡ []) × (o.body.files ≡ [])

-- `o` is the session object.
pub record Steady (sid : ObjId) (o : Counted Session) (refs : Refs) (w : World) : Type 0 where
  pub is_there : w.sessions sid ≡ some o
  pub channels : Tally NoChannel w.channels (λ x. refs.channels x + count x o.body.channels) w.next
  pub listeners :
      Tally NoListener w.listeners (λ x. refs.listeners x + count x o.body.listeners) w.next
  pub sftps : Tally (IsEnding refs.ending) w.sftps (λ x. refs.sftps x + count x o.body.sftps) w.next
  pub handles : Tally IsClosed w.handles (λ x. refs.handles x + in_all_sets w.sftps w.next x) w.next
  pub emptied : (y : ObjId) → KeepsNothing (w.sftps y)

-- The session object with these sets.
abbrev pub with_items : Counted Session → List ObjId → List ObjId → List ObjId → Counted Session
with_items o ss cs ls = record o {
  body = record o.body { sftps = ss; channels = cs; listeners = ls };
}

module _ {sid : ObjId} {o : Counted Session} {refs : Refs} {w : World}
    (k : Steady sid o refs w) where
  pub Steady-host : (h : Host) → Steady sid o refs (record w { host = h })
  Steady-host h = record {
    is_there = k.is_there;
    channels = k.channels;
    listeners = k.listeners;
    sftps = k.sftps;
    handles = k.handles;
    emptied = k.emptied;
  }

  -- A number more is taken.
  pub Steady-later : Steady sid o refs (record w { next = suc w.next })
  Steady-later = record {
    is_there = k.is_there;
    channels = Tally-later k.channels _ (omega arith);
    listeners = Tally-later k.listeners _ (omega arith);
    sftps = Tally-later k.sftps _ (omega arith);
    handles = Tally-same (Tally-later k.handles _ (omega arith)) _ λ x.
        ap (λ n. refs.handles x + n)
          (total-later (λ y. in_sets x (w.sftps y)) w.next (suc w.next) (omega arith)
            λ y above. ap (in_sets x) (k.sftps.fresh y above));
    emptied = k.emptied;
  }

  pub Steady-channels :
      (h : Host) (t : Table Channel) (r : Held)
      → Tally NoChannel t (λ x. r x + count x o.body.channels) w.next
      → Steady sid o (record refs { channels = r }) (record w { host = h; channels = t })
  Steady-channels h t r tally = record {
    is_there = k.is_there;
    channels = tally;
    listeners = k.listeners;
    sftps = k.sftps;
    handles = k.handles;
    emptied = k.emptied;
  }

  pub Steady-listeners :
      (h : Host) (t : Table Listener) (r : Held)
      → Tally NoListener t (λ x. r x + count x o.body.listeners) w.next
      → Steady sid o (record refs { listeners = r }) (record w { host = h; listeners = t })
  Steady-listeners h t r tally = record {
    is_there = k.is_there;
    channels = k.channels;
    listeners = tally;
    sftps = k.sftps;
    handles = k.handles;
    emptied = k.emptied;
  }

  pub Steady-handles :
      (h : Host) (t : Table Handle) (r : Held)
      → Tally IsClosed t (λ x. r x + in_all_sets w.sftps w.next x) w.next
      → Steady sid o (record refs { handles = r }) (record w { host = h; handles = t })
  Steady-handles h t r tally = record {
    is_there = k.is_there;
    channels = k.channels;
    listeners = k.listeners;
    sftps = k.sftps;
    handles = tally;
    emptied = k.emptied;
  }

  -- An SFTP object changes; what its sets lose or gain, the program gains or loses.
  pub Steady-sftps :
      (h : Host) (t : Table Sftp) (c : ObjId) (e : Option (Counted Sftp)) (r rh : Held)
      → Changed w.sftps c e t
      → c < w.next
      → ((x : ObjId) → x ≢ c → r x ≡ refs.sftps x)
      → Tallied (IsEnding refs.ending c) (r c + count c o.body.sftps) e
      → ((x : ObjId) → rh x + in_sets x e ≡ refs.handles x + in_sets x (w.sftps c))
      → KeepsNothing e
      → Steady sid o (record refs { sftps = r; handles = rh }) (record w { host = h; sftps = t })
  Steady-sftps h t c e r rh changed bound same entry moved empty = record {
    is_there = k.is_there;
    channels = k.channels;
    listeners = k.listeners;
    sftps =
        Tally-change k.sftps c e t _ changed bound
          (λ x other. ap (λ n. n + count x o.body.sftps) (same x other)) entry;
    handles = Tally-same k.handles _ λ x. omega (
      arith,
      moved x,
      ap (in_sets x) changed.this,
      total-change (λ y. in_sets x (w.sftps y)) (λ y. in_sets x (t y)) c w.next bound
          λ y other. ap (in_sets x) (changed.others y other),
    );
    emptied = λ y. elim (Bool-cases (y == c)) [
      | inl is_c ↦
          subst (λ z. KeepsNothing (t z)) (sym ((==_iff y c).0 is_c)) (rw changed.this empty)
      | inr differ ↦ rw (changed.others y (apart y c differ)) (k.emptied y)
    ];
  }

  -- The session's sets change; what they lose or gain, the program gains or loses.
  pub Steady-session :
      (ss cs ls : List ObjId) (rs rc rl : Held)
      → ((x : ObjId) → rs x + count x ss ≡ refs.sftps x + count x o.body.sftps)
      → ((x : ObjId) → rc x + count x cs ≡ refs.channels x + count x o.body.channels)
      → ((x : ObjId) → rl x + count x ls ≡ refs.listeners x + count x o.body.listeners)
      → Steady sid
          (with_items o ss cs ls)
          (record refs { sftps = rs; channels = rc; listeners = rl })
          (record w { sessions = write w.sessions sid (some (with_items o ss cs ls)) })
  Steady-session ss cs ls rs rc rl same_sftps same_channels same_listeners = record {
    is_there = write-same w.sessions sid _;
    channels = Tally-same k.channels _ same_channels;
    listeners = Tally-same k.listeners _ same_listeners;
    sftps = Tally-same k.sftps _ same_sftps;
    handles = k.handles;
    emptied = k.emptied;
  }

  -- The same references, counted in another way.
  pub Steady-refs :
      (refs' : Refs)
      → ((x : ObjId) → refs'.channels x ≡ refs.channels x)
      → ((x : ObjId) → refs'.listeners x ≡ refs.listeners x)
      → ((x : ObjId) → refs'.sftps x ≡ refs.sftps x)
      → ((x : ObjId) → refs'.handles x ≡ refs.handles x)
      → refs'.ending ≡ refs.ending
      → Steady sid o refs' w
  Steady-refs refs' same_channels same_listeners same_sftps same_handles same_ending = record {
    is_there = k.is_there;
    channels = Tally-same k.channels _ λ x. ap (λ n. n + count x o.body.channels) (same_channels x);
    listeners =
        Tally-same k.listeners _ λ x. ap (λ n. n + count x o.body.listeners) (same_listeners x);
    sftps =
        subst (λ e. Tally (IsEnding e) w.sftps (λ x. refs'.sftps x + count x o.body.sftps) w.next)
          (sym same_ending)
          (Tally-same k.sftps _ λ x. ap (λ n. n + count x o.body.sftps) (same_sftps x));
    handles =
        Tally-same k.handles _ λ x. ap (λ n. n + in_all_sets w.sftps w.next x) (same_handles x);
    emptied = k.emptied;
  }

  -- Of objects in memory, those in their `tp_dealloc` are still among them.
  pub Steady-ending :
      (ending : ObjId → Bool)
      → ((x : ObjId) (s : Counted Sftp)
          → w.sftps x ≡ some s
          → refs.ending x ≡ true
          → ending x ≡ true)
      → Steady sid o (record refs { ending = ending }) w
  Steady-ending ending among = record {
    is_there = k.is_there;
    channels = k.channels;
    listeners = k.listeners;
    sftps = Tally-Stays k.sftps among;
    handles = k.handles;
    emptied = k.emptied;
  }
