-- ===== src/External/System.antt =====
-- What the sockets ask of the operating system: the calls of POSIX and of Winsock, over a world of
-- the caller's choice. An IPv4 address is a type of the caller's choice too.
use discovery.Base.{
  ℕ, ◌≤◌, ◌≡◌, refl, ◌⊎◌, inl, inr, ◌&&◌, not, Option, some, Bool, true, false, length,
  if◌then◌else◌,
}
use discovery.Base.Int.{ℤ, pos, leb_ℤ, same_ℤ}
use discovery.Base.Text.{Bytes}

-- `sockaddr_in`: the address, and the port in network order.
pub record SockAddr (A : Type 0) : Type 0 where
  pub address : A
  pub port : ℕ

-- `timeval`
pub record Timeval : Type 0 where
  pub tv_sec : ℕ
  pub tv_usec : ℕ

-- What `setsockopt` is given at the level SOL_SOCKET; a timeout is a `V`.
pub data SocketOption (V : Type 0) : Type 0 where
  so_reuseaddr so_broadcast : ℕ → SocketOption V
  so_rcvtimeo so_sndtimeo : V → SocketOption V

-- The outcome of a call that moves data: its result, or -1 with EINTR, or -1 with another error.
pub data Outcome (R : Type 0) : Type 0 where
  done : R → Outcome R
  interrupted failed : Outcome R

pub Outcome-cases :
    {R : Type 0} (o : Outcome R) → ((r : R) × (o ≡ done r)) ⊎ ((o ≡ interrupted) ⊎ (o ≡ failed))
Outcome-cases (done r) = inl (r, refl)
Outcome-cases interrupted = inr (inl refl)
Outcome-cases failed = inr (inr refl)

pub record Inet (A : Type 0) : Type 0 where
  -- inet_pton(AF_INET, …), where it returns 1.
  pub inet_pton : Bytes → Option A
  -- inet_ntop(AF_INET, …), where it returns no null pointer.
  pub inet_ntop : A → Option Bytes
  pub htons : ℕ → ℕ
  pub ntohs : ℕ → ℕ

-- A flag is whether a call returned 0. `signals` is no call: it bounds how often the model of a loop
-- on EINTR repeats a call that is interrupted.
pub record Posix (A W : Type 0) : Type 0 where
  pub socket : W → ℤ × W
  pub bind : ℤ → SockAddr A → W → Bool × W
  pub sendto : ℤ → Bytes → SockAddr A → W → Outcome ℕ × W
  pub recvfrom : ℤ → ℕ → W → Outcome (Bytes × SockAddr A) × W
  pub close : ℤ → W → W
  pub setsockopt : ℤ → SocketOption Timeval → W → Bool × W
  pub signals : W → ℕ

-- What the code relies on, with the table of open descriptors, those that `socket` gave and that are
-- not closed since: a call moves no more than it is given room for, and only `socket` and `close`
-- change the table.
pub record PosixLaws {A W : Type 0} (os : Posix A W) (is_open : ℤ → W → Bool) : Type 0 where
  pub sendto_size :
      (fd : ℤ) (data' : Bytes) (to : SockAddr A) (w : W) (n : ℕ)
      → (os.sendto fd data' to w).0 ≡ done n
      → n ≤ length data'
  pub recvfrom_size :
      (fd : ℤ) (size : ℕ) (w : W) (r : Bytes × SockAddr A)
      → (os.recvfrom fd size w).0 ≡ done r
      → length r.0 ≤ size
  pub socket_open :
      (j : ℤ) (w : W)
      → is_open j (os.socket w).1
        ≡ (if leb_ℤ (pos 0) (os.socket w).0 && same_ℤ (os.socket w).0 j then true else is_open j w)
  pub socket_fresh :
      (w : W) → leb_ℤ (pos 0) (os.socket w).0 ≡ true → is_open (os.socket w).0 w ≡ false
  pub close_open :
      (j fd : ℤ) (w : W) → is_open j (os.close fd w) ≡ (if same_ℤ fd j then false else is_open j w)
  pub bind_open : (j fd : ℤ) (a : SockAddr A) (w : W) → is_open j (os.bind fd a w).1 ≡ is_open j w
  pub sendto_open :
      (j fd : ℤ) (data' : Bytes) (to : SockAddr A) (w : W)
      → is_open j (os.sendto fd data' to w).1 ≡ is_open j w
  pub recvfrom_open :
      (j fd : ℤ) (size : ℕ) (w : W) → is_open j (os.recvfrom fd size w).1 ≡ is_open j w
  pub setsockopt_open :
      (j fd : ℤ) (o : SocketOption Timeval) (w : W)
      → is_open j (os.setsockopt fd o w).1 ≡ is_open j w

-- Winsock: no call is interrupted, `recvfrom` and `sendto` return an int, and `none` stands for
-- SOCKET_ERROR. A timeout is a DWORD.
pub record Winsock (A W : Type 0) : Type 0 where
  pub invalid_socket : ℤ
  pub socket : W → ℤ × W
  pub bind : ℤ → SockAddr A → W → Bool × W
  pub sendto : ℤ → Bytes → SockAddr A → W → Option ℕ × W
  pub recvfrom : ℤ → ℕ → W → Option (Bytes × SockAddr A) × W
  pub closesocket : ℤ → W → W
  pub setsockopt : ℤ → SocketOption ℕ → W → Bool × W

pub record WinsockLaws {A W : Type 0} (os : Winsock A W) (is_open : ℤ → W → Bool) : Type 0 where
  pub sendto_size :
      (s : ℤ) (data' : Bytes) (to : SockAddr A) (w : W) (n : ℕ)
      → (os.sendto s data' to w).0 ≡ some n
      → n ≤ length data'
  pub recvfrom_size :
      (s : ℤ) (size : ℕ) (w : W) (r : Bytes × SockAddr A)
      → (os.recvfrom s size w).0 ≡ some r
      → length r.0 ≤ size
  pub socket_open :
      (j : ℤ) (w : W)
      → is_open j (os.socket w).1 ≡ (
          if not (same_ℤ (os.socket w).0 os.invalid_socket) && same_ℤ (os.socket w).0 j
          then true
          else is_open j w)
  pub socket_fresh :
      (w : W) → same_ℤ (os.socket w).0 os.invalid_socket ≡ false → is_open (os.socket w).0 w ≡ false
  pub closesocket_open :
      (j s : ℤ) (w : W)
      → is_open j (os.closesocket s w) ≡ (if same_ℤ s j then false else is_open j w)
  pub bind_open : (j s : ℤ) (a : SockAddr A) (w : W) → is_open j (os.bind s a w).1 ≡ is_open j w
  pub sendto_open :
      (j s : ℤ) (data' : Bytes) (to : SockAddr A) (w : W)
      → is_open j (os.sendto s data' to w).1 ≡ is_open j w
  pub recvfrom_open :
      (j s : ℤ) (size : ℕ) (w : W) → is_open j (os.recvfrom s size w).1 ≡ is_open j w
  pub setsockopt_open :
      (j s : ℤ) (o : SocketOption ℕ) (w : W) → is_open j (os.setsockopt s o w).1 ≡ is_open j w
