-- ===== src/Store/Run.antt =====
-- The memory, and commands that read and write it.
use pylibssh.Prelude.{ℕ, zero, suc, Option, none, some, ◌==◌, ==_iff, ◌≡◌, refl, if◌then◌else◌}
use pylibssh.Host.{Env, Host, Io}
use pylibssh.Host.Types.{ObjId}
use pylibssh.Handles.{Session, Channel, Listener, Sftp, Handle}

-- An object with its reference count.
pub record Counted (A : Type 0) : Type 0 where
  pub refs : ℕ
  pub body : A

abbrev pub Table : Type 0 → Type 0
Table A = ObjId → Option (Counted A)

pub record World : Type 0 where
  pub host : Host
  pub sessions : Table Session
  pub channels : Table Channel
  pub listeners : Table Listener
  pub sftps : Table Sftp
  pub handles : Table Handle
  pub next : ObjId

-- `fault` is undefined behaviour: the use of an object that is freed, a reference too many given back,
-- or a write through a pointer that points to nothing.
pub data Run (A : Type 0) : Type 0 where
  ok : A → World → Run A
  fault : Run A
  out_of_fuel : Run A

abbrev pub Cmd : Type 0 → Type 0
Cmd A = Env → World → Run A

abbrev pub and_then : {A B : Type 0} → Env → Run A → (A → Cmd B) → Run B
and_then env (ok a w) k = k a env w
and_then env fault k = fault
and_then env out_of_fuel k = out_of_fuel

module _ {A : Type 0} where
  unfoldable pub pure : A → Cmd A
  pure a env w = ok a w

  infixl 5 ◌>>=◌ ◌>>◌
  unfoldable pub ◌>>=◌ : {B : Type 0} → Cmd A → (A → Cmd B) → Cmd B
  ◌>>=◌ m k env w = and_then env (m env w) k

  unfoldable pub ◌>>◌ : {B : Type 0} → Cmd A → Cmd B → Cmd B
  ◌>>◌ m k env w = and_then env (m env w) (λ _. k)

  -- Undefined behaviour.
  unfoldable pub undefined : Cmd A
  undefined env w = fault

  -- A method that reads no object and calls libssh2.
  unfoldable pub lift : Io A → Cmd A
  lift m env w = let r = m env w.host in ok r.0 (record w { host = r.1 })

-- One kind of objects.
pub record Slot (A : Type 0) : Type 0 where
  pub table : World → Table A
  pub update : World → Table A → World

abbrev pub session_slot : Slot Session
session_slot = record { table = λ w. w.sessions; update = λ w t. record w { sessions = t } }

abbrev pub channel_slot : Slot Channel
channel_slot = record { table = λ w. w.channels; update = λ w t. record w { channels = t } }

abbrev pub listener_slot : Slot Listener
listener_slot = record { table = λ w. w.listeners; update = λ w t. record w { listeners = t } }

abbrev pub sftp_slot : Slot Sftp
sftp_slot = record { table = λ w. w.sftps; update = λ w t. record w { sftps = t } }

abbrev pub handle_slot : Slot Handle
handle_slot = record { table = λ w. w.handles; update = λ w t. record w { handles = t } }

abbrev pub write : {A : Type 0} → Table A → ObjId → Option (Counted A) → Table A
write table id entry other = if other == id then entry else table other

pub write-same :
    {A : Type 0} (table : Table A) (id : ObjId) (entry : Option (Counted A))
    → write table id entry id ≡ entry
write-same table id entry = rw ((==_iff id id).1 refl) refl

module _ {A : Type 0} (slot : Slot A) (id : ObjId) where
  -- `self->…`
  unfoldable pub load : Cmd A
  load env w = elim (slot.table w id) [ none ↦ fault | some o ↦ ok o.body w ]

  -- `self->… = …`
  unfoldable pub modify : (A → A) → Cmd (Unit {0})
  modify f env w = elim (slot.table w id) [
    | none ↦ fault
    | some o ↦ ok tt (slot.update w (write (slot.table w) id (some (record o { body = f o.body }))))
  ]

  -- `PyObject_Del(self)`
  unfoldable pub destroy : Cmd (Unit {0})
  destroy env w = ok tt (slot.update w (write (slot.table w) id none))

  -- `Py_INCREF(self)`
  unfoldable pub retain : Cmd (Unit {0})
  retain env w = elim (slot.table w id) [
    | none ↦ fault
    | some o ↦
        ok tt (slot.update w (write (slot.table w) id (some (record o { refs = suc o.refs }))))
  ]

  -- The object with one reference less, and the call of its `tp_dealloc` if none is left.
  unfoldable pub drop_ref : Cmd (Unit {0}) → Counted A → Cmd (Unit {0})
  drop_ref dealloc o env w = elim o.refs [
    | zero ↦ fault
    | suc left ↦
        let w' = slot.update w (write (slot.table w) id (some (record o { refs = left }))) in
        if left == 0 then dealloc env w' else ok tt w'
  ]

  -- `Py_XDECREF(self)`
  unfoldable pub release : Cmd (Unit {0}) → Cmd (Unit {0})
  release dealloc env w = elim (slot.table w id) [
    | none ↦ fault
    | some o ↦ drop_ref dealloc o env w
  ]
