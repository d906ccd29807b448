-- ===== src/SshSetup/Retry.antt =====
-- The retries of `SSHSetup.connect` in functions/ssh_setup.py.
use aws_iprotate_python.Prelude.{ℕ, zero, suc, ◌≤◌, ◌≡◌, true, false, arith}
use aws_iprotate_python.Py.{Error, Result, ok, err}
use aws_iprotate_python.Outside.{Login, Ssh}
use aws_iprotate_python.SshSetup.{attempts, connect}

module _ {W : Type 0} (ssh : Ssh W) (login : Login) where
  -- the machine after `n` attempts that fail, each with its pause
  abbrev pub after : ℕ → W → W
  after zero w = w
  after (suc n) w = after n (ssh.sleep 1 (ssh.connect login w).1)

  -- the attempt that is made after `n` failures
  abbrev pub attempt : ℕ → W → Result (Unit {0})
  attempt n w = (ssh.connect login (after n w)).0

  -- the first `n` attempts fail
  abbrev pub AllFail : ℕ → W → Type 0
  AllFail zero w = Unit
  AllFail (suc n) w =
      ((e : Error) × ((ssh.connect login w).0 ≡ err e))
      × AllFail n (ssh.sleep 1 (ssh.connect login w).1)

  attempts_fail :
      (n : ℕ) (w : W)
      → AllFail (suc n) w
      → attempts ssh login (suc n) w ≡ (ok false, after (suc n) w)
  unfolding attempts
  attempts_fail zero w ((e, h), rest) = ground arith
  attempts_fail (suc n) w ((e, h), rest) =
      ground (arith, attempts_fail n (ssh.sleep 1 (ssh.connect login w).1) rest)

  attempts_succeed :
      (k n : ℕ) (w : W)
      → k ≤ n
      → AllFail k w
      → attempt k w ≡ ok tt
      → attempts ssh login (suc n) w ≡ (ok true, (ssh.connect login (after k w)).1)
  unfolding attempts
  attempts_succeed zero n w le fails h = ground arith
  attempts_succeed (suc k) zero w le fails h = absurd (omega arith)
  attempts_succeed (suc k) (suc n) w le ((e, h'), rest) h =
      ground
        (arith, attempts_succeed k n (ssh.sleep 1 (ssh.connect login w).1) (omega arith) rest h)

  -- With one try or more: if every attempt fails, `connect` answers false, after exactly that many
  -- attempts and a pause behind each.
  pub connect_gives_up :
      (n : ℕ) (w : W)
      → AllFail (suc n) w
      → connect ssh login (suc n) w ≡ (ok false, after (suc n) w)
  unfolding connect
  connect_gives_up n w fails = ground (arith, attempts_fail n w fails)

  -- If attempt number k + 1 is within the tries and is the first that succeeds, `connect` stops
  -- right there, with no pause, and answers whether there is a transport.
  pub connect_stops :
      (k n : ℕ) (w : W)
      → k ≤ n
      → AllFail k w
      → attempt k w ≡ ok tt
      → connect ssh login (suc n) w ≡ ssh.has_transport (ssh.connect login (after k w)).1
  unfolding connect
  connect_stops k n w le fails h = ground (arith, attempts_succeed k n w le fails h)
