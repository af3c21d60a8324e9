-- ===== src/Store/Program/Emptied.antt =====
-- `PYLIBSSH2_Session_close` of src/session.c keeps the ledger of what libssh2 has given.
use mathlib.Core.List.{
  Mem, Nodup, Nodup-cons, Perm, flat_map, append_assoc, append-nil, mem-cons_self, mem-cons_of_mem,
  not-mem-nil, mem_of_ne_of_mem,
}
use mathlib.Core.List.Perm
use mathlib.Mathlib.Data.List.Basic.{flat_map_congr}
use pylibssh.Prelude.{
  ℕ, zero, suc, ℤ, is_negative, ◌<◌, ◌≡◌, ◌≢◌, refl, sym, ap, ◌∙◌, subst, true, Option, some, List,
  [], ◌∷◌, ◌++◌, ◌==◌, ==_iff, String, Bool-cases, inl, inr, if◌then◌else◌,
}
use pylibssh.Host
use pylibssh.Host.{Env, fail_with, set_error}
use pylibssh.Host.Types.{ObjId}
use pylibssh.Store.Run.{World, pure, lift}
use pylibssh.Store.Sessions.{close, close_session}
use pylibssh.Store.Returns.{Returns, returns, mono, bind}
use pylibssh.Store.Entries.{apart}
use pylibssh.Store.Resources.{Resource, ended}
use pylibssh.Store.Program.{Held}
use pylibssh.Handles.{Channel}
use pylibssh.Host.Types.{is_null_ptr}
use pylibssh.Store.Entries.{left_over}
use pylibssh.Store.Owning.{owed, owed_channel}
use pylibssh.Store.Disconnect.{Disconnected, close_session-Disconnected}
use pylibssh.Store.Program.Counts.{Counts, Counts-bound}
use pylibssh.Store.Program.Shuts.{
  contents, contents-Owns, Mem-count, in_set-Entry, count-Nodup, close_session-shut,
}
use pylibssh.Store.Program.Ledger.{Balance, below, live, open_at, split_at, flat_map-below}

without : ObjId → (ObjId → List Resource) → ObjId → List Resource
without c f x = if x == c then [] else f x

without-same : (c : ObjId) (f : ObjId → List Resource) → without c f c ≡ []
unfolding without
without-same c f = rw ((==_iff c c).1 refl) refl

without-other : (c : ObjId) (f : ObjId → List Resource) (x : ObjId) → x ≢ c → without c f x ≡ f x
unfolding without
without-other c f x other = elim (Bool-cases (x == c)) [
  | inl same ↦ absurd (other ((==_iff x c).0 same))
  | inr differ ↦ rw differ refl
]

-- Objects are taken out of a table, one after the other.
emptied :
    (g : ObjId → List Resource) (n : ℕ) (cs : List ObjId) (f : ObjId → List Resource)
    → Nodup cs
    → ((x : ObjId) → Mem x cs → x < n)
    → ((x : ObjId) → Mem x cs → g x ≡ [])
    → ((x : ObjId) → ¬ Mem x cs → g x ≡ f x)
    → Perm (flat_map f (below n)) (flat_map f cs ++ flat_map g (below n))
unfolding flat_map
emptied g n [] f distinct bound gone kept =
    subst (λ l. Perm (flat_map f (below n)) l)
      (sym (flat_map-below f g n λ x less. kept x not-mem-nil)) (Perm.refl _)
emptied g n (c ∷ cs) f distinct bound gone kept =
    let (fresh, distinct') = Nodup-cons.0 distinct in
    let (rest, p, q) = split_at f (without c f) c n (bound c mem-cons_self) (without-other c f) in
    let q' : Perm (flat_map (without c f) (below n)) rest =
      subst (λ l. Perm (flat_map (without c f) (below n)) (l ++ rest)) (without-same c f) q in
    let r : Perm (flat_map (without c f) (below n))
        (flat_map (without c f) cs ++ flat_map g (below n)) =
      emptied g n cs (without c f) distinct' (λ x m. bound x (mem-cons_of_mem c m))
        (λ x m. gone x (mem-cons_of_mem c m))
        λ x outside. elim (Bool-cases (x == c)) [
          | inl same ↦
              let e = (==_iff x c).0 same in
              subst (λ y. g y ≡ without c f y) (sym e)
                (gone c mem-cons_self ∙ sym (without-same c f))
          | inr differ ↦
              kept x (λ m. outside (mem_of_ne_of_mem (apart x c differ) m))
              ∙ sym (without-other c f x (apart x c differ))
        ] in
    let same : flat_map (without c f) cs ≡ flat_map f cs =
      flat_map_congr λ x m. without-other c f x λ e. fresh (subst (λ y. Mem y cs) e m) in
    subst (λ l. Perm (flat_map f (below n)) l)
      (sym (append_assoc (f c) (flat_map f cs) (flat_map g (below n))))
      (Perm.trans p (
        Perm.append_left (f c)
          (subst (λ l. Perm rest (l ++ flat_map g (below n))) same (Perm.trans (Perm.symm q') r))))

closed_left : (h : ℕ) (b : Channel) → is_null_ptr b.channel ≡ true → open_at (left_over h b) ≡ []
closed_left zero b null = refl
closed_left (suc h) b null = rw null refl

module _ (env : Env) (id : ObjId) (held : Held) (w : World) (k : Counts id held w) where
  owed_channels :
      flat_map (owed_channel (contents id held w k)) k.session.body.channels
      ≡ flat_map (λ x. open_at (w.channels x)) k.session.body.channels
  unfolding contents
  owed_channels = flat_map_congr λ x m.
      let (e, given) =
        in_set-Entry (held x) _ (w.channels x) (k.entries x) (Mem-count x _ m) (k.once x) in
      sym (ap open_at e ∙ rw given refl)

  inside-bound : (x : ObjId) → Mem x k.session.body.channels → x < w.next
  inside-bound x m =
      let (e, given) =
        in_set-Entry (held x) _ (w.channels x) (k.entries x) (Mem-count x _ m) (k.once x) in
      Counts-bound k x _ e

  given_back :
      (total : List Resource) (rc : ℤ) (w' : World)
      → Disconnected id k.session (contents id held w k) w total rc w'
      → Perm
          (live w)
          (flat_map (owed_channel (contents id held w k)) k.session.body.channels ++ live w')
  unfolding contents
  given_back total rc w' d =
      subst (λ l. Perm (live w) (l ++ live w')) (sym owed_channels)
        (subst
          (λ n. Perm (live w) (
            flat_map (λ x. open_at (w.channels x)) k.session.body.channels
            ++ flat_map (λ x. open_at (w'.channels x)) (below n)))
          (sym d.next)
          (emptied (λ x. open_at (w'.channels x)) w.next k.session.body.channels
            (λ x. open_at (w.channels x)) (count-Nodup k.session.body.channels k.once) inside-bound
            (λ x m. ap open_at (d.parted.channels x m) ∙ closed_left (held x) _ refl)
            λ x outside. ap open_at (d.others x outside)))

  after :
      (rc : ℤ) (w' : World)
      → Disconnected id k.session
          (contents id held w k)
          w
          (ended w.host.log
            ++ owed
                (contents id held w k)
                k.session.body.sftps
                k.session.body.channels
                k.session.body.listeners)
          rc
          w'
      → Balance w
      → Balance w'
  unfolding flat_map
  after rc w' d b =
      let cs = flat_map (owed_channel (contents id held w k)) k.session.body.channels in
      let all : Perm (ended w'.host.log) (ended w.host.log ++ cs) =
        subst (λ l. Perm l (ended w.host.log ++ cs)) (sym (ap ended d.ends))
          (subst (λ l. Perm (ended d.before) (ended w.host.log ++ l))
            (ap
                (λ ss.
                  owed (contents id held w k) ss k.session.body.channels k.session.body.listeners)
                k.no_sftps
              ∙ (ap (λ ls. owed (contents id held w k) [] k.session.body.channels ls) k.no_listeners
                  ∙ append-nil cs))
            d.gives_back) in
      record {
        lost = b.lost;
        adds_up =
            subst (λ l. Perm l (b.lost ++ (ended w'.host.log ++ live w'))) (sym d.gained)
              (Perm.trans b.adds_up (
                Perm.append_left b.lost (
                  Perm.trans (Perm.append_left (ended w.host.log) (given_back _ rc w' d)) (
                    subst (λ l. Perm l (ended w'.host.log ++ live w'))
                      (append_assoc (ended w.host.log) cs (live w'))
                      (Perm.append_right (live w') (Perm.symm all))))));
      }

  close_session-Balance : Balance w → Returns (λ _ w'. Balance w') (close_session id env w)
  close_session-Balance b = elim (Bool-cases k.session.body.opened) [
    | inl open_ ↦
        mono
          (close_session-Disconnected env w id k.session (contents id held w k) k.is_there open_
            (contents-Owns id held w k))
          λ rc w' d. after rc w' d b
    | inr shut ↦ rw (close_session-shut env w id k.session k.is_there shut) (returns b)
  ]

pub shuts-Balance :
    (env : Env) (id : ObjId) (held : Held) (w : World) (reason : Option String)
    → Counts id held w
    → Balance w
    → Returns (λ _ w'. Balance w') (close id (some reason) env w)
unfolding close lift pure fail_with set_error Host.◌>>◌ Host.pure
shuts-Balance env id held w reason k b =
    bind env _ _ w (close_session-Balance env id held w k b) λ rc w' b'.
      elim (Bool-cases (is_negative rc)) [
        | inl failed ↦ rw failed (returns (record { lost = b'.lost; adds_up = b'.adds_up }))
        | inr closed ↦ rw closed (returns b')
      ]
