-- ===== src/Service.antt =====
-- include/softadastra/discovery/DiscoveryService.hpp. The backend is any backend, and in Service/OverUdp the
-- UDP backend that the service makes of its configuration; the handler of found peers acts on the
-- world.
pub mod Listing
pub mod Serving
pub mod Histories
pub mod OverUdp
use discovery.Base.{
  ℕ, List, [], ◌∷◌, Option, none, some, Bool, false, not, length, drop, leb, if◌then◌else◌,
}
use discovery.External.Serializer.{Serializer}
use discovery.External.Time.{Timestamps, Durations}
use discovery.External.Transport.{PeerInfos, Transport}
use discovery.Core.Context
use discovery.Peer.DiscoveredPeer.{DiscoveredPeer}
use discovery.Peer.Published
use discovery.Peer.Published.{Peer}
use discovery.Peer.Registry
use discovery.Options
use discovery.Options.{Options}
use discovery.Backend.{Backend}
use discovery.Engine
use discovery.Engine.{Engine}
use discovery.Engine.Traffic

pub record Service (W T P D : Type 0) : Type 0 where
  pub options : Options D
  pub engine : Engine W T P D
  pub found_handler : Option (Peer T → W → W)
  pub known_peer_count : ℕ

module _ {W T P D : Type 0} where
  -- on_peer_found and onPeerFound; an empty std::function is `none`.
  unfoldable pub on_peer_found : Option (Peer T → W → W) → Service W T P D → Service W T P D
  on_peer_found handler s = record s { found_handler = handler }

module _ {W T P D : Type 0} ⦃ts : Timestamps T⦄ ⦃ds : Durations D⦄ where
  -- DiscoveryService(options, transport)
  unfoldable pub make : Options D → Transport W P → W → Service W T P D
  make options transport world = record {
    options = options;
    engine = Engine.make (Context.make (Options.to_config options) transport) world;
    found_handler = none;
    known_peer_count = 0;
  }

module _ {W T P D : Type 0} ⦃ts : Timestamps T⦄ ⦃ds : Durations D⦄ (b : Backend W T) where
  unfoldable pub start : Service W T P D → Bool × Service W T P D
  start s =
      if not (Options.is_valid s.options)
      then (false, s)
      else let (started, engine) = Engine.start b s.engine in
        (started, record s { known_peer_count = Registry.size s.engine.registry; engine = engine })

  unfoldable pub stop : Service W T P D → Service W T P D
  stop s = record s { engine = Engine.stop b s.engine; known_peer_count = 0 }

  unfoldable pub is_running : Service W T P D → Bool
  is_running s = Engine.is_running b s.engine

  unfoldable pub probe_now : Service W T P D → Bool × Service W T P D
  probe_now s =
      let (sent, engine) = Engine.probe_now b s.engine in (sent, record s { engine = engine })

  -- The constructor of a public peer reads the clock.
  unfoldable pub to_public_peer : DiscoveredPeer T → Engine W T P D → Peer T × Engine W T P D
  to_public_peer p e =
      let (t, e') = Engine.read_clock b e in (Published.from_discovered_peer t p, e')

  -- The loop of `peers`.
  unfoldable pub peers_loop :
      List (DiscoveredPeer T) → Engine W T P D → List (Peer T) × Engine W T P D
  peers_loop [] e = ([], e)
  peers_loop (p ∷ rest) e =
      let (public_peer, e₁) = to_public_peer p e in
      let (listed, e₂) = peers_loop rest e₁ in
      ((if Published.is_valid public_peer then public_peer ∷ listed else listed), e₂)

  unfoldable pub peers : Service W T P D → List (Peer T) × Service W T P D
  unfolding peers_loop
  peers s =
      let (listed, engine) = peers_loop (Registry.available_peers s.engine.registry) s.engine in
      (listed, record s { engine = engine })

  -- The loop of `notify_new_peers`.
  unfoldable pub notify_loop :
      (Peer T → W → W) → List (DiscoveredPeer T) → Engine W T P D → Engine W T P D
  notify_loop handler [] e = e
  notify_loop handler (p ∷ rest) e =
      let (public_peer, e₁) = to_public_peer p e in
      notify_loop handler rest (
        if Published.is_valid public_peer
        then record e₁ { world = handler public_peer e₁.world }
        else e₁)

  unfoldable pub notify_new_peers : Service W T P D → Service W T P D
  unfolding notify_loop
  notify_new_peers s =
      let discovered = Registry.available_peers s.engine.registry in
      let counted = record s { known_peer_count = length discovered } in
      elim s.found_handler [
        | none ↦ counted
        | some handler ↦
            if leb (length discovered) s.known_peer_count then counted else record counted {
              engine = notify_loop handler (drop s.known_peer_count discovered) s.engine;
            }
      ]

module _ {W T P D : Type 0} ⦃ts : Timestamps T⦄ ⦃ds : Durations D⦄ ⦃infos : PeerInfos P⦄
    (c : Serializer) (b : Backend W T) where
  unfoldable pub announce_now : Service W T P D → Bool × Service W T P D
  announce_now s =
      let (sent, engine) = Traffic.announce_now c b s.engine in (sent, record s { engine = engine })

  unfoldable pub poll : Service W T P D → Bool × Service W T P D
  poll s =
      let (processed, engine) = Traffic.poll_once c b s.engine in
      (processed, notify_new_peers b (record s { engine = engine }))

  unfoldable pub poll_many : ℕ → Service W T P D → ℕ × Service W T P D
  poll_many max_messages s =
      let (processed, engine) = Traffic.poll_many c b max_messages s.engine in
      (processed, notify_new_peers b (record s { engine = engine }))
