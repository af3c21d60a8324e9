-- ===== src/Store/Client/Shutting.antt =====
-- `Sftp_shutdown` of src/sftp.c keeps the references as many as there are.
use mathlib.Core.List.{Perm, Permᴰ}
use mathlib.Core.Logic.{∥∥₁_elim}
use native.Mathlib.Nat.{ℕ_set}
use pylibssh.Prelude.{ℕ, ◌+◌, ◌≡◌, refl, ap, ◌∙◌, subst, true, false, some, List, [], ◌∷◌, arith}
use pylibssh.Host.{Env, invoke}
use pylibssh.Host.Types.{ObjId, is_null_ptr, null_ptr}
use pylibssh.Host.Calls.{sftp_shutdown}
use pylibssh.Handles.{Session, Sftp}
use pylibssh.Store.Run.{
  Counted, World, ok, pure, ◌>>=◌, ◌>>◌, lift, load, modify, write, write-same, sftp_slot,
}
use pylibssh.Store.Objects.{
  directories, set_directories, files, set_files, finish_handle, shutdown_sftp,
}
use pylibssh.Store.Returns.{Returns, returns, mono, chain, drain-Inv}
use pylibssh.Store.Entries.{write-Changed}
use pylibssh.Store.Shutdown.{with_sets}
use pylibssh.Store.Program.{with_ref}
use pylibssh.Store.Program.Counts.{count}
use pylibssh.Store.Files.Counts.{in_sets}
use pylibssh.Store.Client.Tally.{Tallied, Tally-bound}
use pylibssh.Store.Client.State.{IsEnding, Refs, Steady, Steady-sftps}
use pylibssh.Store.Client.Steps.{finishes_handle}

count-Permᴰ : (x : ObjId) (xs ys : List ObjId) → Permᴰ xs ys → count x xs ≡ count x ys
count-Permᴰ x xs ys Permᴰ.nil = refl
count-Permᴰ x xs ys (Permᴰ.cons {a} {b} {l₁} {l₂} same p) =
    subst (λ y. count x (a ∷ l₁) ≡ count x (y ∷ l₂)) same (omega (arith, count-Permᴰ x l₁ l₂ p))
count-Permᴰ x xs ys (Permᴰ.swap {a} {b} {a'} {b'} {l} e f) =
    subst (λ y. count x (a ∷ b ∷ l) ≡ count x (y ∷ b' ∷ l)) f
      (subst (λ y. count x (a ∷ b ∷ l) ≡ count x (b ∷ y ∷ l)) e (omega arith))
count-Permᴰ x xs ys (Permᴰ.trans p q) = count-Permᴰ x xs _ p ∙ count-Permᴰ x _ ys q

pub count-Perm : (x : ObjId) (xs ys : List ObjId) → Perm xs ys → count x xs ≡ count x ys
count-Perm x xs ys p = ∥∥₁_elim p (ℕ_set _ _) (count-Permᴰ x xs ys)

-- The object is shut down, with these references.
abbrev pub IsShut : ObjId → ℕ → World → Type 0
IsShut c n w =
    (b : Sftp) × (w.sftps c ≡ some (record { refs = n; body = b })) × (is_null_ptr b.sftp ≡ true)

module _ (env : Env) (sid : ObjId) (o : Counted Session) (c n : ObjId) (s : Sftp) (refs : Refs)
    (live : is_null_ptr s.sftp ≡ false) where
  -- During the loops the sets hold what is left.
  record Keeps (ds fs : List ObjId) (w : World) : Type 0 where
    pub steady : Steady sid o refs w
    pub object : w.sftps c ≡ some (with_sets n s ds fs)

  -- An object leaves a set, and the loop has the set's reference to it.
  taken :
      (ds fs ds' fs' : List ObjId) (item : ObjId) (w : World)
      → Keeps ds fs w
      → ((x : ObjId) → count x ds + count x fs ≡ count x (item ∷ []) + (count x ds' + count x fs'))
      → Steady sid o
          (record refs { handles = with_ref item refs.handles })
          (record w { sftps = write w.sftps c (some (with_sets n s ds' fs')) })
  taken ds fs ds' fs' item w k moved =
      Steady-sftps k.steady w.host _ c (some (with_sets n s ds' fs')) refs.sftps
        (with_ref item refs.handles) (write-Changed w.sftps c _)
        (Tally-bound k.steady.sftps c _ k.object) (λ x other. refl)
        (subst (Tallied (IsEnding refs.ending c) (refs.sftps c + count c o.body.sftps)) k.object
          (k.steady.sftps.entries c))
        (λ x. ground (arith, moved x, ap (in_sets x) k.object))
        λ null. absurd (ground (arith, live, null))

  round :
      (ds fs ds' fs' : List ObjId) (item : ObjId) (w : World)
      → Keeps ds fs w
      → ((x : ObjId) → count x ds + count x fs ≡ count x (item ∷ []) + (count x ds' + count x fs'))
      → Returns
          (λ _ w'. Keeps ds' fs' w')
          (finish_handle item env
            (record w { sftps = write w.sftps c (some (with_sets n s ds' fs')) }))
  round ds fs ds' fs' item w k moved =
      mono (finishes_handle env sid o item refs _ (taken ds fs ds' fs' item w k moved))
        λ _ w' (k', only). record {
          steady = k';
          object = ap (λ v. v.sftps c) only ∙ write-same w.sftps c _;
        }

  directories-round :
      (fs xs : List ObjId) (item : ObjId) (rest : List ObjId) (w : World)
      → Keeps xs fs w
      → Perm xs (item ∷ rest)
      → Returns (λ _ w'. Keeps rest fs w') ((set_directories c rest >> finish_handle item) env w)
  unfolding modify ◌>>◌
  directories-round fs xs item rest w k p =
      rw k.object (round xs fs rest fs item w k λ x. omega (arith, count-Perm x xs (item ∷ rest) p))

  files-round :
      (xs : List ObjId) (item : ObjId) (rest : List ObjId) (w : World)
      → Keeps [] xs w
      → Perm xs (item ∷ rest)
      → Returns (λ _ w'. Keeps [] rest w') ((set_files c rest >> finish_handle item) env w)
  unfolding modify ◌>>◌
  files-round xs item rest w k p =
      rw k.object (round [] xs [] rest item w k λ x. omega (arith, count-Perm x xs (item ∷ rest) p))

  directories-reads :
      (fs xs : List ObjId) (w : World) → Keeps xs fs w → directories c env w ≡ ok xs w
  unfolding load ◌>>=◌ pure
  directories-reads fs xs w k = rw k.object refl

  files-reads : (xs : List ObjId) (w : World) → Keeps [] xs w → files c env w ≡ ok xs w
  unfolding load ◌>>=◌ pure
  files-reads xs w k = rw k.object refl

  clears :
      (w : World)
      → Keeps [] [] w
      → Returns
          (λ _ w'. Steady sid o refs w' × IsShut c n w')
          ((lift (invoke (sftp_shutdown s.sftp))
              >> modify sftp_slot c (λ b. record b { sftp = null_ptr }))
            env w)
  unfolding lift modify ◌>>◌
  clears w k = rw k.object (
      returns (
        Steady-sftps k.steady _ _ c _ refs.sftps refs.handles (write-Changed w.sftps c _)
            (Tally-bound k.steady.sftps c _ k.object) (λ x other. refl)
            (subst (Tallied (IsEnding refs.ending c) (refs.sftps c + count c o.body.sftps)) k.object
              (k.steady.sftps.entries c))
            (λ x. omega (arith, ap (in_sets x) k.object)) (λ null. (refl, refl)),
        (_, write-same w.sftps c _, refl),
      ))

  pub shuts_live :
      (w : World)
      → Steady sid o refs w
      → w.sftps c ≡ some (record { refs = n; body = s })
      → Returns (λ _ w'. Steady sid o refs w' × IsShut c n w') (shutdown_sftp c env w)
  unfolding shutdown_sftp load ◌>>=◌
  shuts_live w k here =
      rw (here, live)
        (chain env _ _ w
          (drain-Inv env (directories c) (set_directories c) finish_handle (λ xs. Keeps xs s.files)
            (directories-reads s.files) (directories-round s.files) s.directories w
            record { steady = k; object = here })
          λ _ w1 k1.
            chain env _ _ w1
              (drain-Inv env (files c) (set_files c) finish_handle (Keeps []) files-reads
                files-round s.files w1 k1)
              λ _ w2 k2. clears w2 k2)
