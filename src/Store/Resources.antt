-- ===== src/Store/Resources.antt =====
-- What libssh2 keeps for the extension, and which calls of src/channel.c, src/listener.c, src/sftp.c,
-- src/sftpfile.c and src/sftpdir.c give it back.
use mathlib.Core.List.{Perm, Permᴰ, flat_map, append_assoc, append-nil, perm_append_comm}
use mathlib.Core.List.Perm
use mathlib.Core.Logic.{∥∥₁_elim, ∥∥₁_prop}
use pylibssh.Prelude.{◌≡◌, sym, subst, List, [], ◌∷◌, ◌++◌, if◌then◌else◌}
use pylibssh.Host.Types.{ObjId, Ptr, is_null_ptr}
use pylibssh.Host.Calls.{
  Call, Event, Reply, channel_free, channel_forward_cancel, sftp_close_handle, sftp_shutdown,
  channel_open_session, channel_direct_tcpip, channel_forward_accept, channel_forward_listen,
  scp_recv, scp_send, sftp_init, sftp_opendir, sftp_open,
}

pub data Resource : Type 0 where
  channel listener handle sftp : Ptr → Resource

abbrev pub ending : Call → List Resource → List Resource
ending (channel_free p) rs = channel p ∷ rs
ending (channel_forward_cancel p) rs = listener p ∷ rs
ending (sftp_close_handle p) rs = handle p ∷ rs
ending (sftp_shutdown p) rs = sftp p ∷ rs
ending c rs = rs

-- What a log's calls have given back, newest first.
abbrev pub ended : List Event → List Resource
ended [] = []
ended (e ∷ log) = ending e.call (ended log)

-- What a call has given to the extension, if it has.
abbrev pub got : (Ptr → Resource) → Ptr → List Resource → List Resource
got kind p rs = if is_null_ptr p then rs else kind p ∷ rs

abbrev pub obtaining : Call → Reply → List Resource → List Resource
obtaining (channel_open_session p) r rs = got channel r.ptr rs
obtaining (channel_direct_tcpip p to_host to_port from_host from_port) r rs = got channel r.ptr rs
obtaining (channel_forward_accept p) r rs = got channel r.ptr rs
obtaining (scp_recv p path) r rs = got channel r.ptr rs
obtaining (scp_send p path mode size mtime atime) r rs = got channel r.ptr rs
obtaining (channel_forward_listen p on_host on_port bound queue) r rs = got listener r.ptr rs
obtaining (sftp_init p) r rs = got sftp r.ptr rs
obtaining (sftp_opendir p path) r rs = got handle r.ptr rs
obtaining (sftp_open p path flags mode) r rs = got handle r.ptr rs
obtaining c r rs = rs

-- What a log's calls have given to the extension, newest first.
abbrev pub obtained : List Event → List Resource
obtained [] = []
obtained (e ∷ log) = obtaining e.call e.reply (obtained log)

module _ {B : Type 0} where
  pub swap_blocks : (xs ys rest : List B) → Perm (xs ++ (ys ++ rest)) (ys ++ (xs ++ rest))
  swap_blocks xs ys rest =
      subst (λ l. Perm l (ys ++ (xs ++ rest))) (append_assoc xs ys rest)
        (subst (λ l. Perm ((xs ++ ys) ++ rest) l) (append_assoc ys xs rest)
          (Perm.append_right rest (perm_append_comm xs ys)))

-- `owes` is what the objects of a list have, or still owe.
module _ {B : Type 0} (owes : ObjId → List B) where
  flat_mapᴰ : {xs ys : List ObjId} → Permᴰ xs ys → Perm (flat_map owes xs) (flat_map owes ys)
  unfolding flat_map
  flat_mapᴰ Permᴰ.nil = Perm.refl []
  flat_mapᴰ (Permᴰ.cons {a} {b} {l₁} {l₂} same p) =
      subst (λ c. Perm (flat_map owes (a ∷ l₁)) (flat_map owes (c ∷ l₂))) same
        (Perm.append_left (owes a) (flat_mapᴰ p))
  flat_mapᴰ (Permᴰ.swap {a} {b} {a'} {b'} {l} e f) =
      subst (λ c. Perm (flat_map owes (a ∷ b ∷ l)) (flat_map owes (a' ∷ c ∷ l))) e
        (subst (λ c. Perm (flat_map owes (a ∷ b ∷ l)) (flat_map owes (c ∷ a ∷ l))) f
          (swap_blocks (owes a) (owes b) (flat_map owes l)))
  flat_mapᴰ (Permᴰ.trans p q) = Perm.trans (flat_mapᴰ p) (flat_mapᴰ q)

  pub perm-owed : {xs ys : List ObjId} → Perm xs ys → Perm (flat_map owes xs) (flat_map owes ys)
  perm-owed p = ∥∥₁_elim p ∥∥₁_prop flat_mapᴰ

  -- After a round, what is given back and what is still owed make up the same as before.
  pub settle :
      {ids rest : List ObjId} {item : ObjId} {new total : List B} (done others : List B)
      → Perm new (owes item ++ done)
      → Perm ids (item ∷ rest)
      → Perm (done ++ (flat_map owes ids ++ others)) total
      → Perm (new ++ (flat_map owes rest ++ others)) total
  unfolding flat_map
  settle {ids} {rest} {item} {new} {total} done others gives taken adds_up =
      let later = flat_map owes rest in
      Perm.trans (Perm.append_right (later ++ others) gives) (
        subst (λ l. Perm l total) (sym (append_assoc (owes item) done (later ++ others)))
          (Perm.trans (swap_blocks (owes item) done (later ++ others)) (
            subst (λ l. Perm (done ++ l) total) (append_assoc (owes item) later others)
              (Perm.trans
                (Perm.append_left done (Perm.append_right others (Perm.symm (perm-owed taken))))
                adds_up))))

  pub settle-eq :
      {ids rest : List ObjId} {item : ObjId} {new total : List B} (done others : List B)
      → new ≡ owes item ++ done
      → Perm ids (item ∷ rest)
      → Perm (done ++ (flat_map owes ids ++ others)) total
      → Perm (new ++ (flat_map owes rest ++ others)) total
  settle-eq {item = item} done others e =
      settle done others (subst (λ l. Perm l (owes item ++ done)) (sym e) (Perm.refl _))

  -- The same where nothing else is owed.
  pub settle-last :
      {ids rest : List ObjId} {item : ObjId} {new total : List B} (done : List B)
      → new ≡ owes item ++ done
      → Perm ids (item ∷ rest)
      → Perm (done ++ flat_map owes ids) total
      → Perm (new ++ flat_map owes rest) total
  settle-last {ids} {rest} {new = new} {total = total} done e p adds_up =
      subst (λ l. Perm (new ++ l) total) (append-nil (flat_map owes rest))
        (settle-eq done [] e p
          (subst (λ l. Perm (done ++ l) total) (sym (append-nil (flat_map owes ids))) adds_up))
