-- ===== src/Store/Closing.antt =====
-- What closing does to the objects of src/sftp.c, src/sftpfile.c and src/sftpdir.c.
use mathlib.Core.List.{
  Mem, Nodup, Perm, Nodup-cons, mem-cons_self, mem-cons_of_mem, perm_middle, mem_of_ne_of_mem,
}
use mathlib.Core.List.Perm
use pylibssh.Prelude.{
  ℕ, suc, ◌≡◌, ◌≢◌, refl, ◌∙◌, subst, Option, some, arith, List, ◌∷◌, ◌++◌, map, sym, none, ap, ◌-◌,
  ◌==◌, ==_iff, Bool-cases, inl, inr,
}
use pylibssh.Host.{Env, invoke}
use pylibssh.Host.Types.{ObjId, Ptr, null_ptr}
use pylibssh.Host.Calls.{Event, sftp_close_handle}
use pylibssh.Handles.{Handle}
use pylibssh.Store.Run.{
  Counted, Table, World, ok, pure, ◌>>=◌, ◌>>◌, lift, write, write-same, load, modify, release,
  drop_ref,
}
use pylibssh.Store.Objects.{close_handle, dealloc_handle, finish_handle}
use pylibssh.Store.Resources.{Resource, handle, ended, obtained}
use pylibssh.Store.Entries.{write-differ, apart}
use pylibssh.Store.Returns.{Returns, returns}

-- The state behind a round of the loops of `Sftp_shutdown`: one more call, a closed object, and one
-- reference less.
abbrev pub finished : Env → World → ObjId → ℕ → Handle → World
finished env w item n hd = record w {
  host = record w.host {
    log =
        record {
          call = sftp_close_handle hd.handle;
          reply = env.reply w.host.log (sftp_close_handle hd.handle);
        }
        ∷ w.host.log;
  };
  handles =
      write
        (write w.handles item
          (some (record { refs = suc n; body = record hd { handle = null_ptr } })))
        item (some (record { refs = n; body = record hd { handle = null_ptr } }));
}

finish_handle-finished :
    (env : Env) (w : World) (item : ObjId) (n : ℕ) (hd : Handle)
    → w.handles item ≡ some (record { refs = suc n; body = hd })
    → finish_handle item env w ≡ ok tt (finished env w item n hd)
unfolding finish_handle close_handle dealloc_handle load modify release drop_ref lift invoke pure
    ◌>>=◌ ◌>>◌
finish_handle-finished env w item n hd e = ground arith

-- The object is there, with a reference, and its handle is this one.
pub record Holds (handles : Table Handle) (id : ObjId) (p : Ptr) : Type 0 where
  pub others : ℕ
  pub body : Handle
  pub is_there : handles id ≡ some (record { refs = suc others; body = body })
  pub handle_is : body.handle ≡ p

pub Holds-same :
    {handles handles' : Table Handle} {id : ObjId} {p : Ptr}
    → handles' id ≡ handles id
    → Holds handles id p
    → Holds handles' id p
Holds-same same h = record {
  others = h.others;
  body = h.body;
  is_there = same ∙ h.is_there;
  handle_is = h.handle_is;
}

-- The entry of an object that `Sftp_shutdown` takes out of a set: closed, and with one reference less.
abbrev pub taken_out : Option (Counted Handle) → Option (Counted Handle)
taken_out none = none
taken_out (some k) = some (record { refs = k.refs - 1; body = record k.body { handle = null_ptr } })

-- The objects of a list are there, each once, and their handles and what is given back make up
-- `total`. The list has objects of `all` only, and nothing else of the table that was there at the
-- start has changed.
pub record Left (start : Table Handle) (all : List ObjId) (handle_of : ObjId → Ptr)
    (total : List Resource) (ids : List ObjId) (handles : Table Handle) (log : List Event)
    : Type 0 where
  pub distinct : Nodup ids
  pub held : (x : ObjId) → Mem x ids → Holds handles x (handle_of x)
  pub inside : (x : ObjId) → Mem x ids → Mem x all
  pub outside : (x : ObjId) → ¬ Mem x all → handles x ≡ start x
  pub same : (x : ObjId) → Mem x ids → handles x ≡ start x
  pub done : (x : ObjId) → Mem x all → ¬ Mem x ids → handles x ≡ taken_out (start x)
  pub adds_up : Perm (ended log ++ map (λ x. handle (handle_of x)) ids) total

-- The other kinds of objects are untouched.
pub record Beside (w w' : World) : Type 0 where
  pub sessions : w'.sessions ≡ w.sessions
  pub channels : w'.channels ≡ w.channels
  pub listeners : w'.listeners ≡ w.listeners
  pub sftps : w'.sftps ≡ w.sftps
  pub next : w'.next ≡ w.next
  pub gained : obtained w'.host.log ≡ obtained w.host.log

finished-other :
    (env : Env) (w : World) (item : ObjId) (n : ℕ) (hd : Handle) (x : ObjId)
    → x ≢ item
    → (finished env w item n hd).handles x ≡ w.handles x
finished-other env w item n hd x other =
    let closed : Option (Counted Handle) =
      some (record { refs = suc n; body = record hd { handle = null_ptr } }) in
    let left : Option (Counted Handle) =
      some (record { refs = n; body = record hd { handle = null_ptr } }) in
    write-differ (write w.handles item closed) item left x other
    ∙ write-differ w.handles item closed x other

finished-item :
    (env : Env) (w : World) (item : ObjId) (n : ℕ) (hd : Handle)
    → (finished env w item n hd).handles item
      ≡ taken_out (some (record { refs = suc n; body = hd }))
finished-item env w item n hd =
    write-same
      (write w.handles item
        (some (record { refs = suc n; body = record hd { handle = null_ptr } })))
      item (some (record { refs = n; body = record hd { handle = null_ptr } }))
    ∙ ap (λ r. some (record { refs = r; body = record hd { handle = null_ptr } })) (omega arith)

module _ (env : Env) (start : Table Handle) (all : List ObjId) (handle_of : ObjId → Ptr)
    (total : List Resource) where
  pub finish_handle-Left :
      (w : World) (ids : List ObjId) (item : ObjId) (rest : List ObjId)
      → Perm ids (item ∷ rest)
      → Left start all handle_of total ids w.handles w.host.log
      → Returns
          (λ _ w'. Left start all handle_of total rest w'.handles w'.host.log × Beside w w')
          (finish_handle item env w)
  finish_handle-Left w ids item rest p l =
      let here = (Perm.mem_iff p).1 mem-cons_self in
      let first = l.held item here in
      let (new, distinct) = Nodup-cons.0 (Perm.nodup p l.distinct) in
      let still : (x : ObjId) → Mem x rest → Mem x ids =
        λ x m. (Perm.mem_iff p).1 (mem-cons_of_mem item m) in
      let same = finished-other env w item first.others first.body in
      rw (finish_handle-finished env w item first.others first.body first.is_there) (
        returns (
          record {
            distinct = distinct;
            held = λ x m.
                let old = l.held x (still x m) in
                record {
                  others = old.others;
                  body = old.body;
                  is_there = same x (λ e. new (subst (λ y. Mem y rest) e m)) ∙ old.is_there;
                  handle_is = old.handle_is;
                };
            inside = λ x m. l.inside x (still x m);
            outside = λ x out.
                same x (λ e. out (subst (λ y. Mem y all) (sym e) (l.inside item here)))
                ∙ l.outside x out;
            same = λ x m. same x (λ e. new (subst (λ y. Mem y rest) e m)) ∙ l.same x (still x m);
            done = λ x m out. elim (Bool-cases (x == item)) [
              | inl is_item ↦
                  subst
                    (λ y.
                      (finished env w item first.others first.body).handles y ≡ taken_out (start y))
                    (sym ((==_iff x item).0 is_item))
                    (finished-item env w item first.others first.body
                      ∙ sym (ap taken_out (sym (l.same item here) ∙ first.is_there)))
              | inr differ ↦
                  let other = apart x item differ in
                  same x other
                  ∙ l.done x m (λ inside. out (mem_of_ne_of_mem other ((Perm.mem_iff p).0 inside)))
            ];
            adds_up = rw first.handle_is (
                Perm.trans (Perm.symm (perm_middle _ _)) (
                  Perm.trans
                    (Perm.append_left _ (Perm.map (λ x. handle (handle_of x)) (Perm.symm p)))
                    l.adds_up));
          },
          record {
            sessions = refl;
            channels = refl;
            listeners = refl;
            sftps = refl;
            next = refl;
            gained = refl;
          },
        ))
