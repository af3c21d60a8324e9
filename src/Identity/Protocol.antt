-- ===== src/Identity/Protocol.antt =====
-- What the interpreter expects of hash and compare functions, and what it gets.
use pylibssh.Prelude.{ℕ, pos, ◌≡◌, ◌≢◌, ◌↔◌, ◌⊎◌, false, ◌||◌, some, ◌==◌, arith}
use pylibssh.Host.Types.{Ptr}
use pylibssh.Handles.{Session, Channel, Listener, Handle, Sftp}
use pylibssh.Identity.{
  minus_one, mix, hash_pair, hash_three, channel_hash, listener_hash, sftp_hash, handle_hash,
  session_cmp, sftp_cmp,
}

mix-ne : (h1 h2 : ℕ) → (mix h1 h2 == minus_one) ≡ false
unfolding mix
mix-ne h1 h2 = ground arith

hash_pair-eq : (h1 h2 : ℕ) → (hash_pair h1 h2 == minus_one) ≡ (h1 == minus_one || h2 == minus_one)
unfolding hash_pair
hash_pair-eq h1 h2 = ground (arith, mix-ne h1 h2)

hash_three-eq :
    (h1 h2 h3 : ℕ)
    → (hash_three h1 h2 h3 == minus_one) ≡ (h1 == minus_one || (h2 == minus_one || h3 == minus_one))
unfolding hash_three
hash_three-eq h1 h2 h3 = ground (arith, mix-ne h1 h2)

-- Each of the hash functions returns -1, which tells the interpreter that an exception is set, if and
-- only if the hash of one of the object's pointers failed.
pub hash_error :
    (hash : Ptr → ℕ)
    → let fails = λ (p : Ptr). hash p == minus_one in
      ((c : Channel) → (channel_hash hash c == minus_one) ≡ (fails c.channel || fails c.session))
      × ((l : Listener)
          → (listener_hash hash l == minus_one) ≡ (fails l.listener || fails l.session))
      × ((s : Sftp) → (sftp_hash hash s == minus_one) ≡ (fails s.sftp || fails s.session))
      × ((h : Handle)
          → (handle_hash hash h == minus_one)
            ≡ (fails h.sftp || (fails h.session || fails h.handle)))
unfolding channel_hash listener_hash sftp_hash handle_hash
hash_error hash = (
  (λ c. hash_pair-eq (hash c.channel) (hash c.session)),
  (λ l. hash_pair-eq (hash l.listener) (hash l.session)),
  (λ s. hash_pair-eq (hash s.sftp) (hash s.session)),
  (λ h. hash_three-eq (hash h.sftp) (hash h.session) (hash h.handle)),
)

-- The compare functions return 0, which tells the interpreter that the objects are equal, if and only
-- if they are not: a session whose pointer is another one, and an SFTP object whose session or pointer
-- is another one, is equal, and the object itself is not.
pub cmp_inverted :
    ((a b : Session) → (session_cmp a b ≡ pos 0) ↔ (a.session ≢ b.session))
    × ((a b : Sftp)
        → (sftp_cmp (some a) (some b) ≡ pos 0) ↔ ((a.session ≢ b.session) ⊎ (a.sftp ≢ b.sftp)))
unfolding session_cmp sftp_cmp
cmp_inverted = ((λ a b. ground arith), (λ a b. ground arith))
