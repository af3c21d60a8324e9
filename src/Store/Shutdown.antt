-- ===== src/Store/Shutdown.antt =====
-- `Sftp_shutdown` of src/sftp.c: what it leaves of the objects that an SFTP object keeps.
use mathlib.Core.List.{Mem, Nodup, Perm, append-nil, not-mem-nil}
use mathlib.Core.List.Perm
use pylibssh.Prelude.{ℕ, ◌≡◌, refl, sym, ◌∙◌, subst, some, false, List, [], ◌∷◌, ◌++◌, map}
use pylibssh.Host.{Env, invoke}
use pylibssh.Host.Types.{ObjId, Ptr, null_ptr, is_null_ptr}
use pylibssh.Host.Calls.{Event, Reply, sftp_shutdown}
use pylibssh.Handles.{Sftp}
use pylibssh.Store.Run.{write, Counted, World, ok, pure, ◌>>=◌, ◌>>◌, lift, load, modify, sftp_slot}
use pylibssh.Store.Sets.{drain}
use pylibssh.Store.Objects.{
  directories, set_directories, files, set_files, finish_handle, shutdown_sftp,
}
use pylibssh.Store.Returns.{Returns, returns, mono, chain, drain-Inv}
use pylibssh.Store.Closing.{Left, taken_out, Holds, finish_handle-Left}
use pylibssh.Store.Resources.{Resource, handle, ended, obtained}
use pylibssh.Store.Entries.{Changed, write-Changed, Changed-Changed}

-- The object with these sets.
abbrev pub with_sets : ℕ → Sftp → List ObjId → List ObjId → Counted Sftp
with_sets refs s ds fs = record { refs = refs; body = record s { directories = ds; files = fs } }

-- The handles of these objects.
abbrev pub handles_of : (ObjId → Ptr) → List ObjId → List Resource
handles_of handle_of ids = map (λ x. handle (handle_of x)) ids

-- The state when `Sftp_shutdown` of an object with these fields returns, which began in `w`. `total`
-- is what has been given back when the SFTP session itself is.
pub record Ended (w : World) (id : ObjId) (refs : ℕ) (s : Sftp) (total : List Resource) (w' : World)
    : Type 0 where
  pub before : List Event
  pub reply : Reply
  pub object :
      Changed w.sftps id
        (some (record {
          refs = refs;
          body = record s { sftp = null_ptr; directories = []; files = [] };
        }))
        w'.sftps
  pub ends : w'.host.log ≡ record { call = sftp_shutdown s.sftp; reply = reply } ∷ before
  pub closes : Perm (ended before) total
  pub others : (x : ObjId) → ¬ Mem x (s.directories ++ s.files) → w'.handles x ≡ w.handles x
  pub items :
      (x : ObjId) → Mem x (s.directories ++ s.files) → w'.handles x ≡ taken_out (w.handles x)
  pub sessions : w'.sessions ≡ w.sessions
  pub channels : w'.channels ≡ w.channels
  pub listeners : w'.listeners ≡ w.listeners
  pub next : w'.next ≡ w.next
  pub gained : obtained w'.host.log ≡ obtained w.host.log

module _ (env : Env) (start : World) (id : ObjId) (refs : ℕ) (s : Sftp) (handle_of : ObjId → Ptr)
    (total : List Resource) where
  -- During the loops the sets hold what is left.
  record Draining (ds fs : List ObjId) (w : World) : Type 0 where
    pub object : Changed start.sftps id (some (with_sets refs s ds fs)) w.sftps
    pub left :
        Left start.handles
          (s.directories ++ s.files)
          handle_of
          total
          (ds ++ fs)
          w.handles
          w.host.log
    pub sessions : w.sessions ≡ start.sessions
    pub channels : w.channels ≡ start.channels
    pub listeners : w.listeners ≡ start.listeners
    pub next : w.next ≡ start.next
    pub gained : obtained w.host.log ≡ obtained start.host.log

  -- A round, where `ids` are the objects and `ds'` and `fs'` the sets that are left.
  round :
      (ds fs ds' fs' : List ObjId) (item : ObjId) (w : World)
      → Draining ds fs w
      → Perm (ds ++ fs) (item ∷ (ds' ++ fs'))
      → Returns
          (λ _ w'. Draining ds' fs' w')
          (finish_handle item env
            (record w { sftps = write w.sftps id (some (with_sets refs s ds' fs')) }))
  round ds fs ds' fs' item w d p =
      mono
        (finish_handle-Left env start.handles (s.directories ++ s.files) handle_of total _
          (ds ++ fs) item (ds' ++ fs') p d.left)
        λ _ w' l. record {
          object =
              subst (Changed start.sftps id (some (with_sets refs s ds' fs'))) (sym l.1.sftps)
                (Changed-Changed d.object (write-Changed w.sftps id _));
          left = l.0;
          sessions = l.1.sessions ∙ d.sessions;
          channels = l.1.channels ∙ d.channels;
          listeners = l.1.listeners ∙ d.listeners;
          next = l.1.next ∙ d.next;
          gained = l.1.gained ∙ d.gained;
        }

  directories-round :
      (fs xs : List ObjId) (item : ObjId) (rest : List ObjId) (w : World)
      → Draining xs fs w
      → Perm xs (item ∷ rest)
      → Returns
          (λ _ w'. Draining rest fs w')
          ((set_directories id rest >> finish_handle item) env w)
  unfolding modify ◌>>◌
  directories-round fs xs item rest w d p =
      rw d.object.this (round xs fs rest fs item w d (Perm.append_right fs p))

  files-round :
      (xs : List ObjId) (item : ObjId) (rest : List ObjId) (w : World)
      → Draining [] xs w
      → Perm xs (item ∷ rest)
      → Returns (λ _ w'. Draining [] rest w') ((set_files id rest >> finish_handle item) env w)
  unfolding modify ◌>>◌
  files-round xs item rest w d p = rw d.object.this (round [] xs [] rest item w d p)

  directories-reads :
      (fs xs : List ObjId) (w : World) → Draining xs fs w → directories id env w ≡ ok xs w
  unfolding load ◌>>=◌ pure
  directories-reads fs xs w d = rw d.object.this refl

  files-reads : (xs : List ObjId) (w : World) → Draining [] xs w → files id env w ≡ ok xs w
  unfolding load ◌>>=◌ pure
  files-reads xs w d = rw d.object.this refl

  directories-drained :
      (ds fs : List ObjId) (w : World)
      → Draining ds fs w
      → Returns
          (λ _ w'. Draining [] fs w')
          (drain (directories id) (set_directories id) finish_handle env w)
  directories-drained ds fs w d =
      drain-Inv env (directories id) (set_directories id) finish_handle (λ xs. Draining xs fs)
        (directories-reads fs) (directories-round fs) ds w d

  files-drained :
      (fs : List ObjId) (w : World)
      → Draining [] fs w
      → Returns (λ _ w'. Draining [] [] w') (drain (files id) (set_files id) finish_handle env w)
  files-drained fs w d =
      drain-Inv env (files id) (set_files id) finish_handle (Draining []) files-reads files-round fs
        w d

  shutdown-Ended :
      (w : World)
      → Draining [] [] w
      → Returns
          (λ _ w'. Ended start id refs s total w')
          ((lift (invoke (sftp_shutdown s.sftp))
              >> modify sftp_slot id (λ o. record o { sftp = null_ptr }))
            env w)
  unfolding lift invoke modify ◌>>◌
  shutdown-Ended w d = rw d.object.this (
      returns record {
        before = w.host.log;
        reply = env.reply w.host.log (sftp_shutdown s.sftp);
        object = Changed-Changed d.object (write-Changed w.sftps id _);
        ends = refl;
        closes = subst (λ rs. Perm rs total) (append-nil (ended w.host.log)) d.left.adds_up;
        others = d.left.outside;
        items = λ x m. d.left.done x m not-mem-nil;
        sessions = d.sessions;
        channels = d.channels;
        listeners = d.listeners;
        next = d.next;
        gained = d.gained;
      })

-- `Sftp_shutdown` of an SFTP object that is not shut down, whose open directories and files are
-- different objects that are there: whatever libssh2 answers and in whatever order the sets give
-- their elements, it returns, without a use of freed memory. The object keeps its references, its
-- pointer is `NULL` and its sets are empty; each directory and file has lost a reference and its
-- handle is `NULL`. Its last call shuts down the SFTP session, and what was
-- given back to libssh2 before that is what was at the start and, once each, the handles of the
-- directories and files. All other objects are as they were.
pub shutdown_sftp-Ended :
    (env : Env) (w : World) (id : ObjId) (refs : ℕ) (s : Sftp) (handle_of : ObjId → Ptr)
    → w.sftps id ≡ some (record { refs = refs; body = s })
    → is_null_ptr s.sftp ≡ false
    → Nodup (s.directories ++ s.files)
    → ((x : ObjId) → Mem x (s.directories ++ s.files) → Holds w.handles x (handle_of x))
    → Returns
        (λ _ w'.
          Ended w id refs s
            (ended w.host.log ++ handles_of handle_of (s.directories ++ s.files))
            w')
        (shutdown_sftp id env w)
unfolding shutdown_sftp load ◌>>=◌
shutdown_sftp-Ended env w id refs s handle_of object live distinct held =
    rw (object, live)
      (chain env _ _ w
        (directories-drained env w id refs s handle_of total s.directories s.files w start)
        λ _ w1 d1.
          chain env _ _ w1 (files-drained env w id refs s handle_of total s.files w1 d1)
            λ _ w2 d2. shutdown-Ended env w id refs s handle_of total w2 d2)
  where
    total : List Resource
    total = ended w.host.log ++ handles_of handle_of (s.directories ++ s.files)

    start : Draining env w id refs s handle_of total s.directories s.files w
    start = record {
      object = record { others = λ x other. refl; this = object };
      left = record {
        distinct = distinct;
        held = held;
        inside = λ x m. m;
        outside = λ x out. refl;
        same = λ x m. refl;
        done = λ x m out. absurd (out m);
        adds_up = Perm.refl _;
      };
      sessions = refl;
      channels = refl;
      listeners = refl;
      next = refl;
      gained = refl;
    }
