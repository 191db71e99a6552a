-- ===== src/Platform/Linux/Retries.antt =====
-- The loops on EINTR: a call that a signal interrupts is made again, and what they return is the
-- outcome of the first call that none interrupts.
use discovery.Base.{
  ℕ, zero, suc, ◌<◌, ◌≤◌, ◌≡◌, ◌≢◌, refl, ◌∙◌, some, Bool, true, false, is_empty, arith, inl, inr,
}
use discovery.Base.Int.{ℤ}
use discovery.Base.Text.{Bytes}
use discovery.External.System.{
  SockAddr, Outcome, done, interrupted, failed, Inet, Posix, Outcome-cases,
}
use discovery.Platform.Linux.{UdpSocket, is_valid, make_sockaddr, retry, send_to, received}
use discovery.Core.Datagram
use discovery.Core.Datagram.{Datagram}

-- From a world on, the call is interrupted that many times in a row and then ends with an outcome.
pub data Settles {R W : Type 0} (call : W → Outcome R × W) : ℕ → W → Outcome R → W → Type 0 where
  settles : {w w' : W} {o : Outcome R} → call w ≡ (o, w') → o ≢ interrupted → Settles call 0 w o w'
  retries :
      {n : ℕ} {w w' w'' : W} {o : Outcome R}
      → call w ≡ (interrupted, w')
      → Settles call n w' o w''
      → Settles call (suc n) w o w''

module _ {R W : Type 0} (call : W → Outcome R × W) where
  -- More fuel than interruptions is enough.
  retry-Settles :
      (fuel n : ℕ) (w w' : W) (o : Outcome R)
      → n < fuel
      → Settles call n w o w'
      → retry fuel call w ≡ (o, w')
  unfolding retry
  retry-Settles zero n w w' o h run = absurd (omega arith)
  retry-Settles (suc fuel) zero w w' o h (settles e ends) = elim (Outcome-cases o) [
    | inl (r, f) ↦ ground (arith, e, f)
    | inr (inl f) ↦ absurd (ends f)
    | inr (inr f) ↦ ground (arith, e, f)
  ]
  retry-Settles (suc fuel) (suc n) w w' o h (retries {w' = v} e run) =
      ground (arith, e, retry-Settles fuel n v w' o (omega arith) run)

  pub retry_table :
      {is_open : ℤ → W → Bool}
      → ((j : ℤ) (w : W) → is_open j (call w).1 ≡ is_open j w)
      → (j : ℤ) (fuel : ℕ) (w : W) → is_open j (retry fuel call w).1 ≡ is_open j w
  unfolding retry
  retry_table same j zero w = refl
  retry_table same j (suc fuel) w = ground (arith, same j w, retry_table same j fuel (call w).1)

  pub retry_done :
      (P : R → Type 0)
      → ((w : W) (r : R) → (call w).0 ≡ done r → P r)
      → (fuel : ℕ) (w : W) (r : R) → (retry fuel call w).0 ≡ done r
      → P r
  unfolding retry
  retry_done P holds zero w r e = cc
  retry_done P holds (suc fuel) w r e = elim (Outcome-cases (call w).0) [
    | inl (q, f) ↦ holds w r (f ∙ (rw (retry, f) at e))
    | inr (inl f) ↦ retry_done P holds fuel (call w).1 r (rw (retry, f) at e)
    | inr (inr f) ↦ cc (rw (retry, f) at e)
  ]

-- The count that `send_to` returns.
abbrev pub count : Outcome ℕ → ℕ
count (done sent) = sent
count interrupted = 0
count failed = 0

module _ {A : Type 0} (inet : Inet A) where
  -- The datagram that `recv_datagram` returns.
  abbrev pub taken : Outcome (Bytes × SockAddr A) → Datagram
  taken (done r) = received inet r
  taken interrupted = Datagram.initial
  taken failed = Datagram.initial

module _ {A W : Type 0} (inet : Inet A) (os : Posix A W) where
  -- On a valid socket, with bytes to send and a host that names an address: when sendto is
  -- interrupted n times in a row, n within the bound on the repetitions, and then is not, send_to
  -- makes the call again each time, returns the count of the one that is not interrupted, or 0 if
  -- that one fails, and leaves the system that it left.
  pub send_to-Settles :
      (host data' : Bytes) (port : ℕ) (addr : SockAddr A) (s : UdpSocket) (n : ℕ) (w w' : W)
      (o : Outcome ℕ)
      → is_valid s ≡ true
      → is_empty data' ≡ false
      → make_sockaddr inet host port ≡ some addr
      → n ≤ os.signals w
      → Settles (os.sendto s.fd data' addr) n w o w'
      → send_to inet os host port (some data') s w ≡ (count o, w')
  unfolding send_to
  send_to-Settles host data' port addr s n w w' o valid full named bound run =
      let e =
        retry-Settles (os.sendto s.fd data' addr) (suc (os.signals w)) n w w' o (omega arith) run in
      rw (send_to, valid, full, named, e) (ground arith)
