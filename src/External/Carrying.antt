-- ===== src/External/Carrying.antt =====
-- What the code's users may expect of the system's datagrams, over a predicate that says which
-- payloads are on the way in a world.
use discovery.Base.{ℕ, ◌≡◌, ◌⊎◌, some, All, ◌++◌}
use discovery.Base.Int.{ℤ}
use discovery.Base.Text.{Bytes, IsByte}
use discovery.External.System.{SockAddr, SocketOption, Timeval, done, Posix, Winsock}

-- The first is the second or a beginning of it.
abbrev pub IsStart : Bytes → Bytes → Type 0
IsStart front whole = (rest : Bytes) × (whole ≡ front ++ rest)

module _ {W : Type 0} (carried : Bytes → W → Type 0) where
  -- The second world carries nothing that the first one does not carry.
  abbrev pub IsNoNews : W → W → Type 0
  IsNoNews w w' = (p : Bytes) → carried p w' → carried p w

  -- The second world carries nothing but what the first one carries and beginnings of the data.
  abbrev pub IsNewsOf : Bytes → W → W → Type 0
  IsNewsOf data' w w' = (p : Bytes) → carried p w' → carried p w ⊎ IsStart p data'

-- Payloads are bytes, only sending puts one on the way, and what is received is one that is on the
-- way, or the beginning of one.
pub record PosixCarries {A W : Type 0} (os : Posix A W) (carried : Bytes → W → Type 0)
    : Type 0 where
  pub bytes : (p : Bytes) (w : W) → carried p w → All IsByte p
  pub socket_news : (w : W) → IsNoNews carried w (os.socket w).1
  pub close_news : (fd : ℤ) (w : W) → IsNoNews carried w (os.close fd w)
  pub bind_news : (fd : ℤ) (a : SockAddr A) (w : W) → IsNoNews carried w (os.bind fd a w).1
  pub setsockopt_news :
      (fd : ℤ) (o : SocketOption Timeval) (w : W) → IsNoNews carried w (os.setsockopt fd o w).1
  pub recvfrom_news : (fd : ℤ) (size : ℕ) (w : W) → IsNoNews carried w (os.recvfrom fd size w).1
  pub sendto_news :
      (fd : ℤ) (data' : Bytes) (to : SockAddr A) (w : W)
      → IsNewsOf carried data' w (os.sendto fd data' to w).1
  pub recvfrom_brings :
      (fd : ℤ) (size : ℕ) (w : W) (r : Bytes × SockAddr A)
      → (os.recvfrom fd size w).0 ≡ done r
      → (p : Bytes) × carried p w × IsStart r.0 p

pub record WinsockCarries {A W : Type 0} (os : Winsock A W) (carried : Bytes → W → Type 0)
    : Type 0 where
  pub bytes : (p : Bytes) (w : W) → carried p w → All IsByte p
  pub socket_news : (w : W) → IsNoNews carried w (os.socket w).1
  pub closesocket_news : (s : ℤ) (w : W) → IsNoNews carried w (os.closesocket s w)
  pub bind_news : (s : ℤ) (a : SockAddr A) (w : W) → IsNoNews carried w (os.bind s a w).1
  pub setsockopt_news :
      (s : ℤ) (o : SocketOption ℕ) (w : W) → IsNoNews carried w (os.setsockopt s o w).1
  pub recvfrom_news : (s : ℤ) (size : ℕ) (w : W) → IsNoNews carried w (os.recvfrom s size w).1
  pub sendto_news :
      (s : ℤ) (data' : Bytes) (to : SockAddr A) (w : W)
      → IsNewsOf carried data' w (os.sendto s data' to w).1
  pub recvfrom_brings :
      (s : ℤ) (size : ℕ) (w : W) (r : Bytes × SockAddr A)
      → (os.recvfrom s size w).0 ≡ some r
      → (p : Bytes) × carried p w × IsStart r.0 p
