-- ===== src/Platform.antt =====
-- platform/linux/UdpSocket.hpp and platform/windows/UdpSocket.hpp declare one interface, which the
-- UDP backend takes: a socket's operations over the system, and what they promise.
pub mod Ownership
pub mod Linux
pub mod Windows
pub mod Timeouts
use discovery.Base.{ℕ, ◌≤◌, ◌≡◌, Bool, true, false, ◌&&◌, length, if◌then◌else◌}
use discovery.Base.Int.{ℤ, same_ℤ}
use discovery.Base.Text.{Bytes}
use discovery.Core.Datagram.{Datagram}

pub record UdpSockets (S W D : Type 0) : Type 0 where
  -- UdpSocket{}
  pub closed : S
  pub is_valid : S → Bool
  -- The native handle: `fd()`, `native_handle()`.
  pub handle : S → ℤ
  -- open()
  pub open_socket : S → W → Bool × S × W
  pub bind : Bytes → ℕ → S → W → Bool × S × W
  pub send_datagram : Datagram → S → W → ℕ × W
  pub recv_datagram : ℕ → S → W → Datagram × W
  pub close : S → W → S × W
  pub set_reuse_addr : Bool → S → W → Bool × W
  pub set_broadcast : Bool → S → W → Bool × W
  pub set_recv_timeout : D → S → W → Bool × W
  pub set_send_timeout : D → S → W → Bool × W

-- Of the handles of UDP sockets those of `base` are open and, if valid, one more.
pub record Owns {W : Type 0} (is_open : ℤ → W → Bool) (base : ℤ → Bool) (valid : Bool) (handle : ℤ)
    (w : W) : Type 0 where
  pub table : (j : ℤ) → is_open j w ≡ (if valid && same_ℤ handle j then true else base j)
  pub fresh : valid ≡ true → base handle ≡ false

module _ {S W D : Type 0} (u : UdpSockets S W D) (is_open : ℤ → W → Bool) where
  -- The open handles are those of `base` and the socket's own.
  abbrev pub Holds : (ℤ → Bool) → S → W → Type 0
  Holds base s w = Owns is_open base (u.is_valid s) (u.handle s) w

  pub record UdpSocketLaws : Type 0 where
    pub closed_invalid : u.is_valid u.closed ≡ false
    pub close_invalid : (s : S) (w : W) → u.is_valid (u.close s w).0 ≡ false
    pub open_result : (s : S) (w : W) → (u.open_socket s w).0 ≡ u.is_valid (u.open_socket s w).1
    pub bind_valid :
        (host : Bytes) (port : ℕ) (s : S) (w : W)
        → u.is_valid s ≡ true
        → (u.bind host port s w).1 ≡ s
    pub send_size : (d : Datagram) (s : S) (w : W) → (u.send_datagram d s w).0 ≤ length d.payload
    pub recv_size :
        (max_size : ℕ) (s : S) (w : W) → length (u.recv_datagram max_size s w).0.payload ≤ max_size
    pub open-Holds :
        (base : ℤ → Bool) (s : S) (w : W)
        → Holds base s w
        → Holds base (u.open_socket s w).1 (u.open_socket s w).2
    pub bind-Holds :
        (base : ℤ → Bool) (host : Bytes) (port : ℕ) (s : S) (w : W)
        → Holds base s w
        → Holds base (u.bind host port s w).1 (u.bind host port s w).2
    pub close-Holds :
        (base : ℤ → Bool) (s : S) (w : W)
        → Holds base s w
        → Holds base (u.close s w).0 (u.close s w).1
    pub send_open :
        (j : ℤ) (d : Datagram) (s : S) (w : W) → is_open j (u.send_datagram d s w).1 ≡ is_open j w
    pub recv_open :
        (j : ℤ) (max_size : ℕ) (s : S) (w : W)
        → is_open j (u.recv_datagram max_size s w).1 ≡ is_open j w
    pub reuse_open :
        (j : ℤ) (on : Bool) (s : S) (w : W) → is_open j (u.set_reuse_addr on s w).1 ≡ is_open j w
    pub broadcast_open :
        (j : ℤ) (on : Bool) (s : S) (w : W) → is_open j (u.set_broadcast on s w).1 ≡ is_open j w
    pub recv_timeout_open :
        (j : ℤ) (d : D) (s : S) (w : W) → is_open j (u.set_recv_timeout d s w).1 ≡ is_open j w
    pub send_timeout_open :
        (j : ℤ) (d : D) (s : S) (w : W) → is_open j (u.set_send_timeout d s w).1 ≡ is_open j w
