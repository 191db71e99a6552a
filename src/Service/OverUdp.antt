-- ===== src/Service/OverUdp.antt =====
-- DiscoveryService.hpp with the UDP backend that it owns.
use discovery.Base.{◌≡◌, refl, List, [], ◌∷◌, All, Bool, true, false, ◌&&◌, arith, if◌then◌else◌}
use discovery.Base.Int.{ℤ}
use discovery.External.Serializer.{Serializer}
use discovery.External.Time.{Timestamps, Durations}
use discovery.External.Transport.{PeerInfos, Transport}
use discovery.Types.Status
use discovery.Core.Config
use discovery.Core.Config.{Config}
use discovery.Core.Context
use discovery.Core.Context.{Context}
use discovery.Options
use discovery.Options.{Options, is_valid-to_config}
use discovery.Peer.Published.{Peer}
use discovery.Platform.{UdpSockets, UdpSocketLaws}
use discovery.Backend.{Backend}
use discovery.Backend.Udp
use discovery.Backend.Udp.{Udp, udp_backend}
use discovery.Backend.Udp.Contract.{udp_backend-BackendLaws}
use discovery.Backend.Udp.Starting.{IsTidy}
use discovery.Backend.Udp.Handles.{moved-IsTidy}
use discovery.Client.Server
use discovery.Engine
use discovery.Engine.{Engine}
use discovery.Engine.Sessions.{both-IsKept}
use discovery.Engine.Synchrony.{IsInStep, moved-IsInStep, made-IsInStep, IsInStep-IsKept}
use discovery.Engine.Handles.{
  IsApart, IsClean, moved-IsClean, made-IsClean, IsClean-IsKept, stop_released,
}
use discovery.Service
use discovery.Service.{Service}
use discovery.Service.Serving.{Request, history, within, IsServed, IsFitRequest, history_kept}

module _ {S W T P D : Type 0} ⦃ts : Timestamps T⦄ ⦃ds : Durations D⦄ (u : UdpSockets S W D) where
  -- DiscoveryService(options, transport): the backend is made of the service's configuration.
  unfoldable pub make_over_udp : Options D → Transport (Udp S W D) P → W → Service (Udp S W D) T P D
  make_over_udp options transport system =
      Service.make options transport (Udp.make u (Options.to_config options) system)

module _ {S W T D : Type 0} (is_open : ℤ → W → Bool) where
  -- The handler leaves the UDP backend and the open handles of UDP sockets alone.
  abbrev pub IsAside : (Peer T → Udp S W D → Udp S W D) → Type 0
  IsAside f =
      (p : Peer T) (b : Udp S W D)
      → (((f p b).socket ≡ b.socket) × ((f p b).running ≡ b.running))
        × ((j : ℤ) → is_open j (f p b).system ≡ is_open j b.system)

module _ {S W T P D : Type 0} ⦃ts : Timestamps T⦄ ⦃ds : Durations D⦄ ⦃infos : PeerInfos P⦄
    (s : Serializer) {u : UdpSockets S W D} {is_open : ℤ → W → Bool}
    (laws : UdpSocketLaws u is_open) (clock : W → T × W)
    (same : (j : ℤ) (w : W) → is_open j (clock w).1 ≡ is_open j w) (base : ℤ → Bool) where
  abbrev IsHeld : Engine (Udp S W D) T P D → Type 0
  IsHeld e = IsClean s laws clock same base e × IsInStep s (udp_backend-BackendLaws s u clock) e

  -- Another world with the same open handles, socket and running flag.
  within-IsHeld :
      (e : Engine (Udp S W D) T P D) (v : Udp S W D)
      → (v.socket ≡ e.world.socket) × (v.running ≡ e.world.running)
      → ((j : ℤ) → is_open j v.system ≡ is_open j e.world.system)
      → IsHeld e
      → IsHeld (within e v)
  unfolding udp_backend Udp.is_running
  within-IsHeld e v kept table (clean, step) = (
    moved-IsClean s laws clock same base e (within e v) refl
        (moved-IsTidy s laws clock same base e.world v kept table clean.tidy) clean,
    moved-IsInStep s (udp_backend-BackendLaws s u clock) e (within e v) refl kept.1 step,
  )

  IsHeld-IsServed : IsServed s (udp_backend s u clock) (IsAside is_open) IsHeld
  unfolding udp_backend Udp.now
  IsHeld-IsServed = record {
    engine =
        both-IsKept s (udp_backend s u clock) (IsClean-IsKept s laws clock same base)
          (IsInStep-IsKept s (udp_backend-BackendLaws s u clock));
    clock = λ e h. within-IsHeld e _ (refl, refl) (λ j. same j e.world.system) h;
    handler = λ f fit p e h.
        let (kept, table) = fit p e.world in within-IsHeld e (f p e.world) kept table h;
  }

module _ {S W T P D : Type 0} ⦃ts : Timestamps T⦄ ⦃ds : Durations D⦄ ⦃infos : PeerInfos P⦄
    (s : Serializer) {u : UdpSockets S W D} {is_open : ℤ → W → Bool}
    (laws : UdpSocketLaws u is_open) (clock : W → T × W)
    (same : (j : ℤ) (w : W) → is_open j (clock w).1 ≡ is_open j w) where
  -- A service with its UDP backend, on a socket class that keeps the promises of sockets, about the
  -- handles that UDP sockets have open. The condition is that the clock, the transport engine's
  -- connecting and the handlers of found peers neither touch the backend nor open or close a handle
  -- of a UDP socket; they may open and close handles of their own. After any history of calls, with
  -- any options, the open handles of UDP sockets are those open at first and, exactly while the
  -- backend runs, its socket's as well; and after a further stop they are those of the beginning.
  pub history_handles :
      (rs : List (Request (Udp S W D) T)) (options : Options D)
      (transport : Transport (Udp S W D) P) (w : W)
      → All (IsFitRequest (IsAside is_open)) rs
      → IsApart is_open (Context.make (Options.to_config options) transport)
      → let b = udp_backend s u clock in
        let v = history s b rs (make_over_udp u options transport w) in
        IsTidy laws (λ j. is_open j w) v.engine.world
        × ((j : ℤ) → is_open j (Service.stop b v).engine.world.system ≡ is_open j w)
  unfolding make_over_udp Service.make Service.stop udp_backend Udp.is_running Udp.make
  history_handles rs options transport w fit apart =
      let b : Backend (Udp S W D) T = udp_backend s u clock in
      let base : ℤ → Bool = λ j. is_open j w in
      let config : Config D = Options.to_config options in
      let context : Context (Udp S W D) P D = Context.make config transport in
      let v : Service (Udp S W D) T P D = history s b rs (make_over_udp u options transport w) in
      let held : IsHeld s laws clock same base v.engine =
        history_kept s b (IsAside is_open) (IsHeld s laws clock same base)
          (IsHeld-IsServed s laws clock same base) rs (make_over_udp u options transport w) fit tt
          (
            made-IsClean s laws clock same context config w apart,
            made-IsInStep s (udp_backend-BackendLaws s u clock) context (Udp.make u config w) refl
                (λ t has p b. (apart t has p b).0.1),
          ) in
      (held.0.tidy, stop_released s laws clock same base v.engine held.0 held.1)

-- Steps one after another, until one fails: whether none does, and the state after the last one.
abbrev pub all_succeed : {A : Type 0} → List (A → Bool × A) → A → Bool × A
all_succeed [] a = (true, a)
all_succeed (step ∷ steps) a = elim (step a).0 [
  | true ↦ all_succeed steps (step a).1
  | false ↦ (false, (step a).1)
]

module _ {S W D : Type 0} (u : UdpSockets S W D) where
  -- A step that leaves the socket as it is.
  abbrev setting : (S → W → Bool × W) → S × W → Bool × (S × W)
  setting set (socket, w) = let (done, w') = set socket w in (done, (socket, w'))

  -- A step that may change the socket.
  abbrev moving : (S → W → Bool × S × W) → S × W → Bool × (S × W)
  moving move (socket, w) = let (done, socket', w') = move socket w in (done, (socket', w'))

  -- What is done to the socket before a service with these options runs.
  abbrev pub preparations : Options D → List (S × W → Bool × (S × W))
  preparations options =
      moving u.open_socket
      ∷ setting (u.set_reuse_addr true)
      ∷ setting (u.set_broadcast options.enable_broadcast)
      ∷ setting (u.set_recv_timeout options.announce_interval)
      ∷ setting (u.set_send_timeout options.announce_interval)
      ∷ moving (u.bind options.bind_host options.bind_port)
      ∷ []

module _ {S W D : Type 0} ⦃ds : Durations D⦄ (u : UdpSockets S W D) where
  -- The backend of such a service starts exactly if its options are valid and no step fails.
  start_prepared :
      (options : Options D) (w : W)
      → let (ready, (socket, w')) = all_succeed (preparations u options) (u.closed, w) in
        let (started, b) = Udp.start u (Udp.make u (Options.to_config options) w) in
        (started ≡ (Options.is_valid options && ready))
        × (b.running ≡ started)
        × ((if started then b.socket else socket) ≡ socket)
        × ((if started then b.system else w') ≡ w')
  unfolding Udp.start Udp.make Udp.configure_socket Udp.close_socket Options.to_config
      Config.initial
  start_prepared options w = ground (arith, is_valid-to_config options)

module _ {S W T P D : Type 0} ⦃ts : Timestamps T⦄ ⦃ds : Durations D⦄ (s : Serializer)
    (u : UdpSockets S W D) (clock : W → T × W) where
  -- A new service over UDP starts exactly if its options are valid and each of six steps on its new
  -- socket succeeds, in this order, where a step is not made when one before it failed: opening it,
  -- address reuse, broadcast as the options say, the options' announce interval as the timeout for
  -- receiving and then for sending, and binding to the options' host and port. The service then
  -- runs, with the socket and the system that the steps left, and else it does not run.
  pub start-make_over_udp :
      (options : Options D) (transport : Transport (Udp S W D) P) (w : W)
      → let b = udp_backend s u clock in
        let (ready, (socket, w')) = all_succeed (preparations u options) (u.closed, w) in
        let (started, v) = Service.start b (make_over_udp u options transport w) in
        (started ≡ (Options.is_valid options && ready))
        × (Service.is_running b v ≡ started)
        × ((if started then v.engine.world.socket else socket) ≡ socket)
        × ((if started then v.engine.world.system else w') ≡ w')
  unfolding make_over_udp Service.make Service.start Service.is_running Engine.start Engine.make
      Engine.is_running Context.is_valid Context.make Context.has_config Context.has_transport
      Server.start udp_backend Udp.is_running Status.is_running
  start-make_over_udp options transport w =
      ground (arith, is_valid-to_config options, start_prepared u options w)
