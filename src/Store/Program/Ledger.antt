-- ===== src/Store/Program/Ledger.antt =====
-- What libssh2 has given to a program with channels, src/channel.c and src/session.c, and where it is.
use mathlib.Core.List.{Perm, flat_map, append_assoc}
use mathlib.Core.List.Perm
use pylibssh.Prelude.{
  ℕ, zero, suc, ◌<◌, ◌≡◌, ◌≢◌, refl, sym, ap, ◌∙◌, subst, Option, none, some, Bool-cases, inl, inr,
  ◌==◌, ==_iff, List, [], ◌∷◌, ◌++◌, All, arith, false, if◌then◌else◌,
}
use pylibssh.Host.{Env, Io}
use pylibssh.Host.Types.{ObjId, Ptr, is_null_ptr}
use pylibssh.Host.Calls.{
  Call, Event, Reply, hands_over, channel_open_session, channel_direct_tcpip,
  channel_forward_listen, channel_forward_accept, scp_recv, scp_send, sftp_init, sftp_opendir,
  sftp_open, channel_forward_cancel, channel_free, sftp_shutdown, sftp_close_handle,
}
use pylibssh.Report.Uses.{Own, Uses, allocates, asks, works}
use pylibssh.Handles.{Channel}
use pylibssh.Store.Run.{Counted, World}
use pylibssh.Store.Resources.{Resource, channel, ending, ended, obtaining, obtained, swap_blocks}
use pylibssh.Store.Entries.{Changed, apart}

-- The numbers of the objects that were made, newest first.
abbrev pub below : ℕ → List ObjId
below zero = []
below (suc n) = n ∷ below n

-- What an object in memory has.
abbrev pub open_at : Option (Counted Channel) → List Resource
open_at none = []
open_at (some k) = if is_null_ptr k.body.channel then [] else channel k.body.channel ∷ []

abbrev pub live : World → List Resource
live w = flat_map (λ x. open_at (w.channels x)) (below w.next)

-- What libssh2 has given is lost, given back, or in an object in memory.
pub record Balance (w : World) : Type 0 where
  pub lost : List Resource
  pub adds_up : Perm (obtained w.host.log) (lost ++ (ended w.host.log ++ live w))

module _ (f g : ObjId → List Resource) where
  pub flat_map-below :
      (n : ℕ) → ((x : ObjId) → x < n → g x ≡ f x) → flat_map g (below n) ≡ flat_map f (below n)
  unfolding flat_map
  flat_map-below zero same = refl
  flat_map-below (suc n) same =
      rw (same n (omega arith))
        (ap (◌++◌ (f n)) (flat_map-below n λ x less. same x (omega (arith, less))))

  -- Two functions that differ at one object only.
  pub split_at :
      (c n : ℕ)
      → c < n
      → ((x : ObjId) → x ≢ c → g x ≡ f x)
      → (rest : List Resource) × Perm (flat_map f (below n)) (f c ++ rest)
        × Perm (flat_map g (below n)) (g c ++ rest)
  unfolding flat_map
  split_at c zero less same = absurd (omega (arith, less))
  split_at c (suc n) less same = elim (Bool-cases (n == c)) [
    | inl here ↦
        let e = (==_iff n c).0 here in
        (
          flat_map f (below n),
          subst (λ y. Perm (f n ++ flat_map f (below n)) (f y ++ flat_map f (below n))) e
              (Perm.refl _),
          subst (λ y. Perm (g n ++ flat_map g (below n)) (g y ++ flat_map f (below n))) e
              (subst (λ l. Perm (g n ++ flat_map g (below n)) (g n ++ l))
                (flat_map-below n λ x under. same x λ is_c. omega (arith, under, is_c, e))
                (Perm.refl _)),
        )
    | inr other ↦
        let differ = apart n c other in
        let (rest, p, q) = split_at c n (omega (arith, less, differ)) same in
        (
          f n ++ rest,
          Perm.trans (Perm.append_left (f n) p) (swap_blocks (f n) (f c) rest),
          rw (same n differ) (Perm.trans (Perm.append_left (f n) q) (swap_blocks (f n) (g c) rest)),
        )
  ]

-- At most one object's entry changes, and what it had is given back or still there.
pub Balance-change :
    (w w' : World) (c : ObjId) (e : Option (Counted Channel))
    → c < w.next
    → w'.next ≡ w.next
    → Changed w.channels c e w'.channels
    → obtained w'.host.log ≡ obtained w.host.log
    → Perm (ended w'.host.log ++ open_at e) (ended w.host.log ++ open_at (w.channels c))
    → Balance w
    → Balance w'
Balance-change w w' c e bound next changed same kept b =
    let old = ended w.host.log in
    let new = ended w'.host.log in
    let f : ObjId → List Resource = λ x. open_at (w.channels x) in
    let g : ObjId → List Resource = λ x. open_at (w'.channels x) in
    let (rest, p, q) = split_at f g c w.next bound λ x other. ap open_at (changed.others x other) in
    let q' : Perm (live w') (open_at e ++ rest) =
      subst (λ n. Perm (flat_map g (below n)) (open_at e ++ rest)) (sym next)
        (subst (λ entry. Perm (flat_map g (below w.next)) (open_at entry ++ rest)) changed.this
          q) in
    let regroup : Perm (old ++ (f c ++ rest)) (new ++ (open_at e ++ rest)) =
      subst (λ l. Perm l (new ++ (open_at e ++ rest))) (append_assoc old (f c) rest)
        (subst (Perm ((old ++ f c) ++ rest)) (append_assoc new (open_at e) rest)
          (Perm.append_right rest (Perm.symm kept))) in
    record {
      lost = b.lost;
      adds_up =
          subst (λ l. Perm l (b.lost ++ (new ++ live w'))) (sym same)
            (Perm.trans b.adds_up (
              Perm.append_left b.lost (
                Perm.trans (Perm.append_left old p)
                  (Perm.trans regroup (Perm.append_left new (Perm.symm q'))))));
    }

not_handed-obtaining :
    (c : Call) (r : Reply) (rs : List Resource) → hands_over c ≡ false → obtaining c r rs ≡ rs
not_handed-obtaining (channel_open_session p) r rs passes = absurd (ground (arith, passes))
not_handed-obtaining (channel_direct_tcpip p to_host to_port from_host from_port) r rs passes =
    absurd (ground (arith, passes))
not_handed-obtaining (channel_forward_listen p on_host on_port bound queue) r rs passes =
    absurd (ground (arith, passes))
not_handed-obtaining (channel_forward_accept p) r rs passes = absurd (ground (arith, passes))
not_handed-obtaining (scp_recv p path) r rs passes = absurd (ground (arith, passes))
not_handed-obtaining (scp_send p path mode size mtime atime) r rs passes =
    absurd (ground (arith, passes))
not_handed-obtaining (sftp_init p) r rs passes = absurd (ground (arith, passes))
not_handed-obtaining (sftp_opendir p path) r rs passes = absurd (ground (arith, passes))
not_handed-obtaining (sftp_open p path flags mode) r rs passes = absurd (ground (arith, passes))
not_handed-obtaining c r rs passes = refl

not_handed-ending : (c : Call) (rs : List Resource) → hands_over c ≡ false → ending c rs ≡ rs
not_handed-ending (channel_forward_cancel p) rs passes = absurd (ground (arith, passes))
not_handed-ending (channel_free p) rs passes = absurd (ground (arith, passes))
not_handed-ending (sftp_shutdown p) rs passes = absurd (ground (arith, passes))
not_handed-ending (sftp_close_handle p) rs passes = absurd (ground (arith, passes))
not_handed-ending c rs passes = refl

Own-hands_over : {session handle : Ptr} {c : Call} → Own session handle c → hands_over c ≡ false
Own-hands_over (allocates t passes) = passes
Own-hands_over (asks e) = rw e refl
Own-hands_over (works l t passes) = passes

module _ (session handle : Ptr) (log : List Event) where
  obtained-unchanged :
      (new : List Event)
      → All (λ e. Own session handle e.call) new
      → obtained (new ++ log) ≡ obtained log
  obtained-unchanged [] own = refl
  obtained-unchanged (e ∷ new) own =
      not_handed-obtaining e.call e.reply _ (Own-hands_over own.0) ∙ obtained-unchanged new own.1

  ended-unchanged :
      (new : List Event) → All (λ e. Own session handle e.call) new → ended (new ++ log) ≡ ended log
  ended-unchanged [] own = refl
  ended-unchanged (e ∷ new) own =
      not_handed-ending e.call _ (Own-hands_over own.0) ∙ ended-unchanged new own.1

-- A method that calls libssh2 only on its own handles changes nothing.
pub Balance-host :
    {A : Type 0} (env : Env) (session handle : Ptr) (m : Io A) (w : World)
    → Uses session handle env m
    → Balance w
    → Balance (record w { host = (m env w.host).1 })
Balance-host env session handle m w u b =
    let (new, grows, own) = u.uses w.host in
    record {
      lost = b.lost;
      adds_up =
          subst (λ log. Perm (obtained log) (b.lost ++ (ended log ++ live w))) (sym grows)
            (rw
              (
                obtained-unchanged session handle w.host.log new own,
                ended-unchanged session handle w.host.log new own,
              )
              b.adds_up);
    }
