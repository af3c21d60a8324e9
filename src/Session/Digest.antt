-- ===== src/Session/Digest.antt =====
-- What `hostkey_hash` of src/session.c makes of a digest, and how long its result is.
use pylibssh.Prelude.{
  ℕ, ℤ, negsuc, ◌≤◌, Bool-cases, inl, inr, zero, suc, ◌<◌, pos, ◌≡◌, refl, ap, false, [], ◌∷◌, ◌++◌,
  take, length, All, none, some, ◌==◌, arith,
}
use pylibssh.Host.{Env, Host, invoke, pure, ◌>>=◌, parsed}
use pylibssh.Host.Types.{Bytes, is_null_ptr, bytes, py_none}
use pylibssh.Host.Calls
use pylibssh.Handles.{Session}
use pylibssh.Session.Setup.{c_string, digest_len, hostkey_hash}
use pylibssh.Report.Bounds.{
  IsBounded, data_of, length-take, bind-IsBounded, ite-IsBounded, pure-IsBounded,
}

c_string-take :
    (n : ℕ) (xs ys : Bytes)
    → All (λ x. (x == 0) ≡ false) xs
    → length xs < n
    → c_string (take n (xs ++ (0 ∷ ys))) ≡ xs
unfolding c_string
c_string-take zero xs ys nonzero short = absurd (omega arith)
c_string-take (suc n) [] ys nonzero short = refl
c_string-take (suc n) (x ∷ xs) ys nonzero short =
    rw (nonzero.0) (ap (◌∷◌ x) (c_string-take n xs ys nonzero.1 (omega arith)))

-- `hostkey_hash` for MD5, where libssh2 gives a digest with a zero byte among its 16, whose first
-- zero byte stands behind `xs`: the result is `xs`, without the rest of the digest.
pub hostkey_hash-zero :
    (env : Env) (self : Session) (h : Host) (xs ys : Bytes)
    → is_null_ptr (env.reply h.log (Calls.hostkey_hash self.session (pos 1))).ptr ≡ false
    → (env.reply h.log (Calls.hostkey_hash self.session (pos 1))).buffer ≡ xs ++ (0 ∷ ys)
    → All (λ x. (x == 0) ≡ false) xs
    → length xs < 16
    → (hostkey_hash self (some none) env h).0 ≡ bytes xs
unfolding hostkey_hash parsed invoke pure ◌>>=◌
hostkey_hash-zero env self h xs ys given digest nonzero short =
    rw (given, digest, c_string-take 16 xs ys nonzero short) refl

length-c_string : (xs : Bytes) → length (c_string xs) ≤ length xs
unfolding c_string
length-c_string [] = omega arith
length-c_string (x ∷ xs) = elim (Bool-cases (x == 0)) [
  | inl end ↦ rw end (omega arith)
  | inr inside ↦ rw inside (omega (arith, length-c_string xs))
]

digest_len-bound : (hashtype : ℤ) → digest_len hashtype ≤ 20
digest_len-bound (pos n) = ground arith
digest_len-bound (negsuc n) = omega arith

-- Whatever type of hash the caller asks for and whatever libssh2 answers, the bytes that
-- `hostkey_hash` copies and their terminating zero fit into its buffer of 21 bytes, and it returns at
-- most as many bytes as it copies.
pub hostkey_hash-bound :
    (env : Env) (self : Session) (h : Host) (hashtype : ℤ)
    → (suc (digest_len hashtype) ≤ 21)
      × (length (data_of (hostkey_hash self (some (some hashtype)) env h).0) ≤ digest_len hashtype)
unfolding hostkey_hash parsed
hostkey_hash-bound env self h hashtype =
    (omega (arith, digest_len-bound hashtype), copied.bounded h)
  where
    copied : IsBounded env (digest_len hashtype) (hostkey_hash self (some (some hashtype)))
    copied = bind-IsBounded _ λ hash.
        ite-IsBounded (is_null_ptr hash.ptr) (pure-IsBounded py_none (omega arith)) (
          pure-IsBounded _ (
            omega (
              arith,
              length-c_string (take (digest_len hashtype) hash.buffer),
              length-take (digest_len hashtype) hash.buffer,
            )))
