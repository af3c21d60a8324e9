-- ===== src/Report/Bounds.antt =====
-- How much data a method returns: the rules that go through its body.
use pylibssh.Prelude.{
  ℕ, zero, suc, ℤ, String, pos, negsuc, ◌≤◌, Bool, true, false, List, [], ◌∷◌, take, length, arith,
  if◌then◌else◌,
}
use pylibssh.Host.{Env, Host, Io, pure, ◌>>=◌, invoke, fail_with, set_error, ◌>>◌}
use pylibssh.Host.Types.{Ptr, Bytes, Exception, ssh_error, is_null_ptr, Value, bytes, sized_bytes}
use pylibssh.Host.Calls.{Call, Reply, Event}
use pylibssh.Report.{Cases, Report, report_code, guarded}
use pylibssh.Report.Null.{report_code-null}
use pylibssh.Channel.Streams.{prefix}

-- The bytes of a value.
abbrev pub data_of : Value → Bytes
data_of (bytes b) = b
data_of (sized_bytes n b) = b
data_of v = []

-- Whatever was called before, the method returns at most so many bytes.
pub record IsBounded (env : Env) (n : ℕ) (m : Io Value) : Type 0 where
  pub bounded : (h : Host) → length (data_of (m env h).0) ≤ n

pub length-take : (n : ℕ) (xs : Bytes) → length (take n xs) ≤ n
length-take zero xs = omega arith
length-take (suc n) [] = omega arith
length-take (suc n) (x ∷ xs) = omega (arith, length-take n xs)

-- The return code is no more than the size of the buffer.
abbrev pub AtMost : ℕ → ℤ → Type 0
AtMost n (pos m) = m ≤ n
AtMost n (negsuc m) = Unit {0}

pub length-prefix : (n : ℕ) (rc : ℤ) (buffer : Bytes) → AtMost n rc → length (prefix rc buffer) ≤ n
length-prefix n (pos m) buffer fits = omega (arith, fits, length-take m buffer)
length-prefix n (negsuc m) buffer fits = omega arith

module _ {env : Env} {n : ℕ} where
  pub ite-IsBounded :
      (b : Bool) {x y : Io Value}
      → IsBounded env n x
      → IsBounded env n y
      → IsBounded env n (if b then x else y)
  ite-IsBounded true p q = p
  ite-IsBounded false p q = q

  pub bind-IsBounded :
      {A : Type 0} (m : Io A) {k : A → Io Value}
      → ((a : A) → IsBounded env n (k a))
      → IsBounded env n (m >>= k)
  unfolding ◌>>=◌
  bind-IsBounded m p = record { bounded = λ h. (p _).bounded _ }

  -- A call whose replies have a property.
  pub invoke-IsBounded :
      (P : Reply → Type 0) (c : Call) {k : Reply → Io Value}
      → ((log : List Event) → P (env.reply log c))
      → ((r : Reply) → P r → IsBounded env n (k r))
      → IsBounded env n (invoke c >>= k)
  unfolding invoke ◌>>=◌
  invoke-IsBounded P c replies p = record { bounded = λ h. (p _ (replies h.log)).bounded _ }

  pub fail_with-IsBounded : (e : Exception) → IsBounded env n (fail_with e)
  unfolding fail_with set_error pure ◌>>◌
  fail_with-IsBounded e = record { bounded = λ h. omega arith }

  pub report_code-IsBounded :
      (p : Ptr) (rc : ℤ) (cases : Cases) (other : Report)
      → IsBounded env n (report_code p rc cases other)
  report_code-IsBounded p rc cases other = record {
    bounded = λ h. rw (report_code-null env p rc cases other h) (omega arith);
  }

  pub pure-IsBounded : (v : Value) → length (data_of v) ≤ n → IsBounded env n (pure v)
  unfolding pure
  pure-IsBounded v p = record { bounded = λ h. p }

  pub guarded-IsBounded :
      (p : Ptr) (text : String) {body : Io Value}
      → IsBounded env n body
      → IsBounded env n (guarded p text body)
  unfolding guarded
  guarded-IsBounded p text b =
      ite-IsBounded (is_null_ptr p) (fail_with-IsBounded (ssh_error text [])) b
