-- ===== src/Backend/Udp/Handles.antt =====
-- Which of the system's handles a UDP backend keeps open over any history of calls.
use discovery.Base.{◌≡◌, sym, ap, ◌∙◌, refl, List, [], ◌∷◌, Bool, false, arith}
use discovery.Base.Int.{ℤ}
use discovery.External.Serializer.{Serializer}
use discovery.External.Time.{Timestamps, Durations}
use discovery.Core.Config.{Config}
use discovery.Core.Envelope.{Envelope}
use discovery.Encoding.Encode.{make_datagram}
use discovery.Platform.{UdpSockets, UdpSocketLaws}
use discovery.Platform.Ownership.{Owns-none, Owns-kept, Owns-released}
use discovery.Backend.Udp
use discovery.Backend.Udp.{Udp}
use discovery.Backend.Udp.Starting.{IsTidy, kept-IsTidy, stop-IsTidy, start-IsTidy}

-- The calls of a backend.
pub data Use (T : Type 0) : Type 0 where
  starts stops polls reads_clock : Use T
  sends : Envelope T → Use T

module _ {S W D T : Type 0} ⦃ts : Timestamps T⦄ ⦃ds : Durations D⦄ (c : Serializer)
    (u : UdpSockets S W D) (clock : W → T × W) where
  unfoldable pub apply : Use T → Udp S W D → Udp S W D
  apply starts b = (Udp.start u b).1
  apply stops b = Udp.stop u b
  apply polls b = (Udp.poll c u clock b).1
  apply reads_clock b = (Udp.now clock b).1
  apply (sends e) b = (Udp.send c u clock e b).1

  unfoldable pub apply_all : List (Use T) → Udp S W D → Udp S W D
  apply_all [] b = b
  apply_all (x ∷ xs) b = apply_all xs (apply x b)

module _ {S W D T : Type 0} ⦃ts : Timestamps T⦄ ⦃ds : Durations D⦄ (c : Serializer)
    {u : UdpSockets S W D} {is_open : ℤ → W → Bool} (laws : UdpSocketLaws u is_open)
    (clock : W → T × W) (same : (j : ℤ) (w : W) → is_open j (clock w).1 ≡ is_open j w)
    (base : ℤ → Bool) where
  send_table :
      (e : Envelope T) (b : Udp S W D) (j : ℤ)
      → is_open j (Udp.send c u clock e b).1.system ≡ is_open j b.system
  unfolding Udp.send
  send_table e b j =
      ground
        (arith, laws.send_open j (make_datagram c e.message e.to_host e.to_port) b.socket b.system)

  send_kept :
      (e : Envelope T) (b : Udp S W D)
      → ((Udp.send c u clock e b).1.socket ≡ b.socket)
        × ((Udp.send c u clock e b).1.running ≡ b.running)
  unfolding Udp.send
  send_kept e b = ground arith

  poll_table :
      (b : Udp S W D) (j : ℤ) → is_open j (Udp.poll c u clock b).1.system ≡ is_open j b.system
  unfolding Udp.poll
  poll_table b j =
      let w₁ : W = (u.recv_datagram b.config.max_datagram_size b.socket b.system).1 in
      ground (
        arith,
        laws.recv_open j b.config.max_datagram_size b.socket b.system,
        same j w₁,
        same j (clock w₁).1,
      )

  poll_kept :
      (b : Udp S W D)
      → ((Udp.poll c u clock b).1.socket ≡ b.socket)
        × ((Udp.poll c u clock b).1.running ≡ b.running)
  unfolding Udp.poll
  poll_kept b = ground arith

  pub moved-IsTidy :
      (b b' : Udp S W D)
      → (b'.socket ≡ b.socket) × (b'.running ≡ b.running)
      → ((j : ℤ) → is_open j b'.system ≡ is_open j b.system)
      → IsTidy laws base b
      → IsTidy laws base b'
  moved-IsTidy b b' kept table h = record {
    held = rw kept.0 (Owns-kept table h.held);
    valid = ap u.is_valid kept.0 ∙ (h.valid ∙ sym kept.1);
  }

  pub apply-IsTidy :
      (x : Use T) (b : Udp S W D) → IsTidy laws base b → IsTidy laws base (apply c u clock x b)
  unfolding apply Udp.now
  apply-IsTidy starts b h = start-IsTidy laws base b h
  apply-IsTidy stops b h = stop-IsTidy laws base b h
  apply-IsTidy polls b h = moved-IsTidy b _ (poll_kept b) (poll_table b) h
  apply-IsTidy reads_clock b h = kept-IsTidy laws base b _ (λ j. same j b.system) h
  apply-IsTidy (sends e) b h = moved-IsTidy b _ (send_kept e b) (send_table e b) h

  apply_all-IsTidy :
      (xs : List (Use T)) (b : Udp S W D)
      → IsTidy laws base b
      → IsTidy laws base (apply_all c u clock xs b)
  unfolding apply_all
  apply_all-IsTidy [] b h = h
  apply_all-IsTidy (x ∷ xs) b h = apply_all-IsTidy xs (apply c u clock x b) (apply-IsTidy x b h)

module _ {S W D T : Type 0} ⦃ts : Timestamps T⦄ ⦃ds : Durations D⦄ (c : Serializer)
    {u : UdpSockets S W D} {is_open : ℤ → W → Bool} (laws : UdpSocketLaws u is_open)
    (clock : W → T × W) (same : (j : ℤ) (w : W) → is_open j (clock w).1 ≡ is_open j w) where
  pub made-IsTidy :
      (config : Config D) (w : W) → IsTidy laws (λ j. is_open j w) (Udp.make u config w)
  unfolding Udp.make
  made-IsTidy config w = record {
    held = Owns-none laws.closed_invalid (λ j. refl);
    valid = laws.closed_invalid;
  }

  -- Of a backend that does not run, the system's open handles are those of the beginning.
  pub IsTidy-released :
      (base : ℤ → Bool) (b : Udp S W D)
      → IsTidy laws base b
      → b.running ≡ false
      → (j : ℤ) → is_open j b.system ≡ base j
  IsTidy-released base b h off = Owns-released (h.valid ∙ off) h.held

  -- On a socket that keeps the promises of sockets, and with a clock that opens and closes
  -- nothing: after any history of calls of a new UDP backend the system's open handles are those
  -- open at first and, exactly while the backend runs, its socket's as well; and after a further
  -- stop they are those of the beginning.
  pub apply_all_handles :
      (xs : List (Use T)) (config : Config D) (w : W)
      → let b = apply_all c u clock xs (Udp.make u config w) in
        IsTidy laws (λ j. is_open j w) b × ((j : ℤ) → is_open j (Udp.stop u b).system ≡ is_open j w)
  unfolding Udp.stop Udp.close_socket
  apply_all_handles xs config w =
      let base : ℤ → Bool = λ j. is_open j w in
      let b : Udp S W D = apply_all c u clock xs (Udp.make u config w) in
      let tidy : IsTidy laws base b =
        apply_all-IsTidy c laws clock same base xs (Udp.make u config w) (made-IsTidy config w) in
      (tidy, IsTidy-released base (Udp.stop u b) (stop-IsTidy laws base b tidy) refl)
