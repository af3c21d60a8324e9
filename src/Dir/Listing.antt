-- ===== src/Dir/Listing.antt =====
-- What `list_files` of src/sftpdir.c returns for the directory that libssh2 reads out.
use pylibssh.Prelude.{
  ℕ, zero, suc, ◌<◌, pos, is_negative, is_zero, ◌≡◌, refl, ◌∙◌, false, some, List, [], ◌∷◌, take,
  length, arith, Bool-cases, ◌==◌, inl, inr,
}
use pylibssh.Host.{called, Env, Host, pure, ◌>>=◌, invoke}
use pylibssh.Host.Types.{Ptr, Bytes, Attributes, StatDict, is_null_ptr, listing}
use pylibssh.Host.Calls.{Reply, Event, py_string_new, sftp_readdir, py_string_resize}
use pylibssh.Stat.{sftp_attrs_to_statdict}
use pylibssh.Handles.{Handle}
use pylibssh.Dir.{longentry_maxlen, found, finished, next_entry, set_item, list_loop, list_files}

module _ (env : Env) (handle : Ptr) (h : Host) where
  -- The allocation that precedes a call of `readdir`, and the call.
  abbrev pub allocated : List Event
  allocated = called env h.log (py_string_new longentry_maxlen)

  abbrev pub read_out : Reply
  read_out = env.reply allocated (sftp_readdir handle longentry_maxlen)

  -- libssh2 gives a name of at least one byte and its attributes, and no allocation fails.
  pub record Reads (name : Bytes) (attrs : Attributes) : Type 0 where
    pub size : ℕ
    pub allocates : is_null_ptr (env.reply h.log (py_string_new longentry_maxlen)).ptr ≡ false
    pub returns : read_out.rc ≡ pos (suc size)
    pub names : take (suc size) read_out.buffer ≡ name
    pub describes : read_out.attrs ≡ attrs
    pub resizes :
        is_negative
          (env.reply
            (called env allocated (sftp_readdir handle longentry_maxlen))
            (py_string_resize (pos (suc size)))).rc
        ≡ false

  -- libssh2 says that there are no more names.
  pub record Ends : Type 0 where
    pub allocates : is_null_ptr (env.reply h.log (py_string_new longentry_maxlen)).ptr ≡ false
    pub returns : read_out.rc ≡ pos 0

  next_entry-found :
      (name : Bytes) (attrs : Attributes)
      → Reads name attrs
      → ((next_entry handle env h).0 ≡ found name attrs)
        × ((next_entry handle env h).1.error ≡ h.error)
  unfolding next_entry invoke ◌>>=◌ pure
  next_entry-found name attrs r =
      let positive : is_zero (pos (suc r.size)) ≡ false = ground arith in
      elim (Bool-cases (suc r.size == 255)) [
        | inl full ↦
            simp (r.allocates, r.returns, positive, full, r.names, r.describes) (refl, refl)
        | inr part ↦
            simp (r.allocates, r.returns, positive, part, r.resizes, r.names, r.describes)
              (refl, refl)
      ]

  next_entry-finished :
      Ends
      → ((next_entry handle env h).0 ≡ finished) × ((next_entry handle env h).1.error ≡ h.error)
  unfolding next_entry invoke ◌>>=◌ pure
  next_entry-finished e = rw (e.allocates, e.returns) (refl, refl)

-- From here on libssh2 reads out these entries, in this order, and then says that there are no more.
pub data Serves (env : Env) (handle : Ptr) : Host → List (Bytes × Attributes) → Type 0 where
  last : {h : Host} → Ends env handle h → Serves env handle h []
  more :
      {h : Host} {rest : List (Bytes × Attributes)} (name : Bytes) (attrs : Attributes)
      → Reads env handle h name attrs
      → Serves env handle (next_entry handle env h).1 rest
      → Serves env handle h ((name, attrs) ∷ rest)

-- The dictionary that the entries make, put in one after the other.
abbrev pub dict_of : List (Bytes × StatDict) → List (Bytes × Attributes) → List (Bytes × StatDict)
dict_of dict [] = dict
dict_of dict ((name, attrs) ∷ rest) =
    dict_of (set_item name (sftp_attrs_to_statdict attrs) dict) rest

module _ (env : Env) (handle : Ptr) where
  list_loop-dict_of :
      (fuel : ℕ) (dict : List (Bytes × StatDict)) {h : Host} {entries : List (Bytes × Attributes)}
      → Serves env handle h entries
      → length entries < fuel
      → let r = list_loop fuel handle dict env h in
        (r.0 ≡ some (listing (dict_of dict entries))) × (r.1.error ≡ h.error)
  unfolding list_loop ◌>>=◌ pure
  list_loop-dict_of zero dict s enough = absurd (omega arith)
  list_loop-dict_of (suc fuel) dict {h} (last e) enough =
      let (end, clean) = next_entry-finished env handle h e in rw end (refl, clean)
  list_loop-dict_of (suc fuel) dict {h} (more name attrs r s) enough =
      let (step, clean) = next_entry-found env handle h name attrs r in
      let (rest, clean') =
        list_loop-dict_of fuel (set_item name (sftp_attrs_to_statdict attrs) dict) s
          (omega arith) in
      rw step (rest, clean' ∙ clean)

-- `list_files` on an open directory: if libssh2 reads out some entries, of whatever number, and then
-- says that there are no more, the loop ends within one round more than there are entries, sets no
-- exception, and returns the dictionary of the entries, in which the last entry of a name counts.
pub list_files-dict_of :
    (env : Env) (self : Handle) (h : Host) (fuel : ℕ) (entries : List (Bytes × Attributes))
    → is_null_ptr self.handle ≡ false
    → Serves env self.handle h entries
    → length entries < fuel
    → let r = list_files fuel self env h in
      (r.0 ≡ some (listing (dict_of [] entries))) × (r.1.error ≡ h.error)
unfolding list_files
list_files-dict_of env self h fuel entries live s enough =
    rw live (list_loop-dict_of env self.handle fuel [] s enough)
