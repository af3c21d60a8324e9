-- ===== src/Store/Program/Incomes.antt =====
-- The methods of src/session.c that make channel objects keep the ledger of what libssh2 has given.
use mathlib.Core.List.{Perm, flat_map}
use mathlib.Core.List.Perm
use pylibssh.Prelude.{
  ℕ, ℤ, String, suc, ◌≡◌, refl, sym, ap, ◌∙◌, subst, Bool, true, false, Option, none, some, List,
  [], ◌∷◌, ◌++◌, Bool-cases, inl, inr, arith, if◌then◌else◌,
}
use pylibssh.Host
use pylibssh.Host.{Host, Env, called, invoke, Io, set_error, fail_with}
use pylibssh.Host.Types.{ObjId, Ptr, is_null_ptr, null_ptr, Value}
use pylibssh.Host.Calls.{Kind, py_object_new}
use pylibssh.Handles.{Session, Channel}
use pylibssh.Report.Uses.{Uses, report_null-Uses}
use pylibssh.Store.Run.{Counted, World, pure, ◌>>=◌, ◌>>◌, lift, load, write, write-same}
use pylibssh.Store.Opening
use pylibssh.Store.Opening.{new_channel, track_channel, new_object, insert_object, open_session}
use pylibssh.Store.Returns.{Returns, returns}
use pylibssh.Store.Entries.{Changed, write-Changed, Changed-Changed}
use pylibssh.Store.Resources.{Resource, channel, ended, got, obtained, swap_blocks}
use pylibssh.Store.Channels.{track_channel-object}
use pylibssh.Store.Program.Ledger.{Balance, Balance-host, below, flat_map-below, live, open_at}

-- A channel that libssh2 has just given is in no object yet.
record Pending (p : Ptr) (w : World) : Type 0 where
  pub lost : List Resource
  pub adds_up : Perm (obtained w.host.log) (channel p ∷ (lost ++ (ended w.host.log ++ live w)))

file_under :
    (r : Resource) (xs ys zs : List Resource)
    → Perm (r ∷ (xs ++ (ys ++ zs))) (xs ++ (ys ++ (r ∷ zs)))
file_under r xs ys zs =
    Perm.trans (swap_blocks (r ∷ []) xs (ys ++ zs))
      (Perm.append_left xs (swap_blocks (r ∷ []) ys zs))

live-grown :
    (w w' : World) (e : Option (Counted Channel))
    → w'.next ≡ suc w.next
    → Changed w.channels w.next e w'.channels
    → live w' ≡ open_at e ++ live w
unfolding flat_map
live-grown w w' e next changed =
    ap (λ n. flat_map g (below n)) next
    ∙ (ap (λ entry. open_at entry ++ flat_map g (below w.next)) changed.this
        ∙ ap (λ l. open_at e ++ l)
            (flat_map-below (λ x. open_at (w.channels x)) g w.next
              λ x less. ap open_at (changed.others x λ e'. omega (arith, less, e'))))
  where
    g : ObjId → List Resource
    g x = open_at (w'.channels x)

grown-Balance :
    (w w' : World) (r : Resource) (e : Option (Counted Channel)) (lost : List Resource)
    → w'.next ≡ suc w.next
    → Changed w.channels w.next e w'.channels
    → open_at e ≡ r ∷ []
    → Perm (obtained w'.host.log) (r ∷ (lost ++ (ended w'.host.log ++ live w)))
    → Balance w'
grown-Balance w w' r e lost next changed has adds_up = record {
  lost = lost;
  adds_up =
      subst (λ l. Perm (obtained w'.host.log) (lost ++ (ended w'.host.log ++ l)))
        (sym (live-grown w w' e next changed ∙ ap (λ l. l ++ live w) has))
        (Perm.trans adds_up (file_under r lost (ended w'.host.log) (live w)));
}

track_channel-Balance :
    (env : Env) (id : ObjId) (w : World) (o : Counted Session) (b : Channel)
    → w.sessions id ≡ some o
    → is_null_ptr b.channel ≡ false
    → Pending b.channel w
    → Returns
        (λ v w'. Balance w')
        (track_channel id (some w.next) env (record w {
          channels = write w.channels w.next (some (record { refs = 1; body = b }));
          next = suc w.next;
        }))
track_channel-Balance env id w o b here given p =
    rw
      (track_channel-object env
        (record w {
          channels = write w.channels w.next (some (record { refs = 1; body = b }));
          next = suc w.next;
        })
        id o w.next (record { refs = 1; body = b }) here (write-same w.channels w.next _))
      (returns (
        grown-Balance w _ (channel b.channel) (some (record { refs = 2; body = b })) p.lost refl
          (Changed-Changed (write-Changed w.channels w.next _) (write-Changed _ w.next _))
          (rw given refl) p.adds_up))

new_channel-Balance :
    (env : Env) (id : ObjId) (w : World) (o : Counted Session) (session p : Ptr)
    → w.sessions id ≡ some o
    → is_null_ptr p ≡ false
    → Pending p w
    → Returns (λ v w'. Balance w') ((new_channel session p >>= track_channel id) env w)
unfolding new_object lift fail_with set_error invoke insert_object track_channel pure ◌>>=◌ ◌>>◌
    Host.pure Host.◌>>◌
new_channel-Balance env id w o session p here given b = elim (Bool-cases (is_null_ptr session)) [
  | inl missing ↦
      simp (missing) (returns (record { lost = channel p ∷ b.lost; adds_up = b.adds_up }))
  | inr there ↦
      elim (Bool-cases (is_null_ptr (env.reply w.host.log (py_object_new Kind.channel)).ptr)) [
        | inl none_left ↦
            simp (there, given, none_left)
              (returns (record { lost = channel p ∷ b.lost; adds_up = b.adds_up }))
        | inr made ↦
            simp (there, given, made)
              (track_channel-Balance env id _ o (record { session = session; channel = p }) here
                given (record { lost = b.lost; adds_up = b.adds_up }))
      ]
]

-- The ends of `open_session` and of `scp_send`, where `report` is the error block.
opening :
    (env : Env) (id : ObjId) (w : World) (o : Counted Session) (session p : Ptr) (report : Io Value)
    → w.sessions id ≡ some o
    → Uses session null_ptr env report
    → (missing : Bool) → (missing ≡ true → Balance w)
    → (missing ≡ false → is_null_ptr p ≡ false)
    → (missing ≡ false → Pending p w)
    → Returns
        (λ v w'. Balance w')
        ((if missing then lift report else (new_channel session p >>= track_channel id)) env w)
unfolding lift
opening env id w o session p report here u true b made given =
    returns (Balance-host env session null_ptr report w u (b refl))
opening env id w o session p report here u false b made given =
    new_channel-Balance env id w o session p here (made refl) (given refl)

-- What the reply of a call that hands over a channel makes of the ledger.
answered-Balance :
    (w w' : World) (p : Ptr)
    → live w' ≡ live w
    → obtained w'.host.log ≡ got channel p (obtained w.host.log)
    → ended w'.host.log ≡ ended w.host.log
    → Balance w
    → is_null_ptr p ≡ true
    → Balance w'
answered-Balance w w' p kept gets ends b null = record {
  lost = b.lost;
  adds_up = rw (gets, null, kept, ends) b.adds_up;
}

answered-Pending :
    (w w' : World) (p : Ptr)
    → live w' ≡ live w
    → obtained w'.host.log ≡ got channel p (obtained w.host.log)
    → ended w'.host.log ≡ ended w.host.log
    → Balance w
    → is_null_ptr p ≡ false
    → Pending p w'
answered-Pending w w' p kept gets ends b made = record {
  lost = b.lost;
  adds_up = rw (gets, made, kept, ends) (Perm.cons _ b.adds_up);
}

pub open_session-Balance :
    (env : Env) (id : ObjId) (w : World) (o : Counted Session)
    → w.sessions id ≡ some o
    → Balance w
    → Returns (λ v w'. Balance w') (open_session id env w)
unfolding open_session load invoke lift ◌>>=◌
open_session-Balance env id w o here b = rw here (
    opening env id _ o o.body.session _ _ here
      (report_null-Uses env _ _ _ _ (tt, (tt, (tt, tt))) tt) _
      (answered-Balance w _ _ refl refl refl b) (λ e. e) (answered-Pending w _ _ refl refl refl b))

pub send-Balance :
    (env : Env) (id : ObjId) (w : World) (o : Counted Session)
    (args : Option (String × ℤ × ℕ × ℤ × ℤ))
    → w.sessions id ≡ some o
    → Balance w
    → Returns (λ v w'. Balance w') (Opening.send id args env w)
unfolding Opening.send load invoke lift fail_with set_error ◌>>=◌ Host.◌>>◌ Host.pure
send-Balance env id w o none here b = returns (record { lost = b.lost; adds_up = b.adds_up })
send-Balance env id w o (some a) here b = rw here (
    opening env id _ o o.body.session _ _ here
      (report_null-Uses env _ _ _ _ (tt, (tt, (tt, (tt, tt)))) tt) _
      (answered-Balance w _ _ refl refl refl b) (λ e. e) (answered-Pending w _ _ refl refl refl b))
