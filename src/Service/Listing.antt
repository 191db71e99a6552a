-- ===== src/Service/Listing.antt =====
-- What the service lists, and what it counts.
use discovery.Base.{
  leb, drop, ◌&&◌, ◌≡◌, refl, List, [], ◌∷◌, arith, Option-cases, Bool-cases, inl, inr, length,
  if◌then◌else◌,
}
use discovery.Base.Dict.{Dict}
use discovery.Base.DictLaws.{Entries}
use discovery.External.Time.{Timestamps, Durations}
use discovery.Core.Announcement
use discovery.Peer.DiscoveredPeer
use discovery.Peer.DiscoveredPeer.{DiscoveredPeer}
use discovery.Peer.Published
use discovery.Peer.Published.{Peer}
use discovery.Peer.Registry
use discovery.Peer.Registry.{Registry}
use discovery.Peer.Registry.Invariant.{IsWellFormed, Filed}
use discovery.Backend.{Backend}
use discovery.Engine
use discovery.Engine.{Engine}
use discovery.Service
use discovery.Service.{Service}

module _ {T : Type 0} ⦃ts : Timestamps T⦄ where
  -- The public view of a peer.
  abbrev pub published : DiscoveredPeer T → Peer T
  published p = record {
    node_id = p.announcement.node_id;
    host = p.announcement.host;
    port = p.announcement.port;
    last_seen_at = p.last_seen_at;
  }

  -- The available peers that were seen at a valid time.
  abbrev pub listing : Dict (DiscoveredPeer T) → List (Peer T)
  listing [] = []
  listing ((k, p) ∷ m) =
      let rest = listing m in
      if DiscoveredPeer.available p && ts.is_valid p.last_seen_at then published p ∷ rest else rest

  Filed_published :
      (k : _) (p : DiscoveredPeer T)
      → Filed k p
      → Published.is_valid (published p) ≡ ts.is_valid p.last_seen_at
  unfolding Published.is_valid DiscoveredPeer.is_valid Announcement.is_valid
  Filed_published k p f = ground (arith, f)

module _ {W T P D : Type 0} ⦃ts : Timestamps T⦄ ⦃ds : Durations D⦄ (b : Backend W T) where
  peers_loop-listing :
      (m : Dict (DiscoveredPeer T)) (e : Engine W T P D)
      → Entries Filed m
      → (Service.peers_loop b (Registry.available_loop m) e).0 ≡ listing m
  unfolding Service.peers_loop Registry.available_loop Service.to_public_peer Engine.read_clock
      Published.from_discovered_peer Published.make
  peers_loop-listing [] e h = refl
  peers_loop-listing ((k, p) ∷ m) e h =
      let (t, w) = b.now e.world in
      let rest : (Service.peers_loop b (Registry.available_loop m) (record e { world = w })).0
          ≡ listing m =
        peers_loop-listing m (record e { world = w }) h.1 in
      let same : Published.is_valid (published p) ≡ ts.is_valid p.last_seen_at =
        Filed_published k p h.0 in
      elim (Bool-cases (DiscoveredPeer.available p)) [
        | inl up ↦ rw (up, Published.from_discovered_peer, Published.make, same, rest) refl
        | inr down ↦ rw down (peers_loop-listing m e h.1)
      ]

  notify_loop_registry :
      (handler : Peer T → W → W) (ps : List (DiscoveredPeer T)) (e : Engine W T P D)
      → (Service.notify_loop b handler ps e).registry ≡ e.registry
  unfolding Service.notify_loop Service.to_public_peer Engine.read_clock
  notify_loop_registry handler [] e = refl
  notify_loop_registry handler (p ∷ ps) e =
      let (t, w) = b.now e.world in
      let seen : Peer T = Published.from_discovered_peer t p in
      elim (Bool-cases (Published.is_valid seen)) [
        | inl valid ↦
            rw (Service.notify_loop, valid)
              (notify_loop_registry handler ps (record e { world = handler seen w }))
        | inr invalid ↦
            rw (Service.notify_loop, invalid)
              (notify_loop_registry handler ps (record e { world = w }))
      ]

  -- Where the registry is well formed, the service lists exactly the available peers that were
  -- last seen at a valid time, in the registry's order.
  pub peers-listing :
      (s : Service W T P D)
      → IsWellFormed s.engine.registry
      → (Service.peers b s).0 ≡ listing s.engine.registry.peers
  unfolding Service.peers Registry.available_peers
  peers-listing s w = peers_loop-listing s.engine.registry.peers s.engine w.filed

  -- After `notify_new_peers` the count is that of the available peers, and the registry is as before.
  pub notify_new_peers_count :
      (s : Service W T P D)
      → let s' = Service.notify_new_peers b s in
        (s'.known_peer_count ≡ length (Registry.available_peers s'.engine.registry))
        × (s'.engine.registry ≡ s.engine.registry)
  unfolding Service.notify_new_peers
  notify_new_peers_count s = elim (Option-cases s.found_handler) [
    | inl unset ↦ rw (Service.notify_new_peers, unset) (refl, refl)
    | inr (handler, set) ↦
        let ps : List (DiscoveredPeer T) = Registry.available_peers s.engine.registry in
        elim (Bool-cases (leb (length ps) s.known_peer_count)) [
          | inl few ↦ rw (Service.notify_new_peers, set, few) (refl, refl)
          | inr more ↦
              rw
                (
                  Service.notify_new_peers,
                  set,
                  more,
                  notify_loop_registry handler (drop s.known_peer_count ps) s.engine,
                )
                (refl, refl)
        ]
  ]
