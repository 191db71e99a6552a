-- ===== src/Network/Listed.antt =====
-- What `DiscoveryService::peers` lists on a network over UDP.
use discovery.Base.{
  ℕ, ◌≡◌, ◌≢◌, none, some, All, List, [], ◌∷◌, ◌&&◌, get_elem?, All-get_elem?, Bool-cases, inl, inr,
  arith,
}
use discovery.Base.Text.{Bytes, same_text, same_text_iff}
use discovery.Base.Dict.{Dict, lookup}
use discovery.Base.DictLaws.{Entries}
use discovery.External.Carrying.{IsNoNews}
use discovery.External.Serializer.{Serializer, SerializerLaws, FitsI64}
use discovery.External.Time.{Timestamps, Durations, TimestampLaws}
use discovery.External.Transport.{PeerInfos, Transport}
use discovery.Core.Announcement.{Announcement}
use discovery.Options.{Options}
use discovery.Peer.DiscoveredPeer
use discovery.Peer.DiscoveredPeer.{DiscoveredPeer}
use discovery.Peer.Published.{Peer}
use discovery.Peer.Registry
use discovery.Peer.Registry.Invariant.{Filed}
use discovery.Platform.{UdpSockets}
use discovery.Backend.Udp.{Udp}
use discovery.Engine
use discovery.Service
use discovery.Service.Listing.{published, listing, peers-listing}
use discovery.Network.{Node, Net, Reach}
use discovery.Network.Carried.{Carries}
use discovery.Network.Truth.{IsOfSome}
use discovery.Network.OverUdp.{
  system_sharing, udp_net, IsDiscreet, IsOrderly, IsOfMember, IsTrueMember, udp_net-IsTrueMember,
  some_member,
}

module _ {T : Type 0} ⦃ts : Timestamps T⦄ (own : Bytes) (Met : Announcement T → Type 0)
    (Q : Peer T → Type 0)
    (step : (p : DiscoveredPeer T)
      → p.announcement.node_id ≢ own
      → Met p.announcement
      → Q (published p)) where
  -- What holds of each entry's peer holds of what is listed.
  listing_each :
      (m : Dict (DiscoveredPeer T))
      → lookup own m ≡ none
      → Entries Filed m
      → Entries (λ k p. Met p.announcement) m
      → All Q (listing m)
  unfolding lookup
  listing_each [] absent filed met = tt
  listing_each ((k, p) ∷ m) absent filed met = elim (Bool-cases (same_text k own)) [
    | inl same ↦ cc (rw same at absent)
    | inr other ↦
        let rest : All Q (listing m) = listing_each m (rw other at absent) filed.1 met.1 in
        let stranger : p.announcement.node_id ≢ own =
          λ itself. ground (arith, other, same_text_iff k own, filed.0.0, itself) in
        elim (Bool-cases (DiscoveredPeer.available p && ts.is_valid p.last_seen_at)) [
          | inl listed ↦ rw listed (step p stranger met.0, rest)
          | inr left ↦ rw left rest
        ]
  ]

module _ {V T P D : Type 0} ⦃ts : Timestamps T⦄ ⦃ds : Durations D⦄ where
  -- Another service of the network, as it announces itself.
  abbrev pub IsOther : List (Options D × Transport V P) → Node V T P D → Peer T → Type 0
  IsOther members n q =
      (q.node_id ≢ Engine.local_node_id n.backend n.service.engine)
      × IsOfMember members q.node_id q.host q.port

module _ {S W T P D : Type 0} ⦃ts : Timestamps T⦄ ⦃ds : Durations D⦄ ⦃infos : PeerInfos P⦄
    {s : Serializer} (laws : SerializerLaws s) (times : TimestampLaws ts) (u : UdpSockets S W D)
    (clock : W → T × W) {carried : Bytes → W → Type 0} (net : Carries u clock carried) where
  -- A network of services as in OverUdp, with the same laws and conditions: services made of any
  -- options whose fields fit, over UDP, nothing on the way at first, a network that makes nothing
  -- up, a clock within 64 bits, and transport engines and handlers that put no datagram on the
  -- way. However it is reached, every peer that a service's peers() lists has a node id other than
  -- the service's own, and the node id, host and port that one of the services announces.
  pub udp_net-peers :
      ((w : W) → FitsI64 (ts.millis (clock w).0))
      → (w : W) → ((p : Bytes) → ¬ carried p w)
      → (members : List (Options D × Transport (Udp S W D) P)) → All (IsOrderly carried) members
      → (reached : Net (Udp S W D) W T P D)
      → Reach s system_sharing
          (IsDiscreet carried)
          (IsNoNews carried)
          (udp_net s u clock w members)
          reached
      → (i : ℕ) (n : Node (Udp S W D) T P D) → get_elem? reached.nodes i ≡ some n
      → All (IsOther members n) (Service.peers n.backend n.service).0
  unfolding Registry.get
  udp_net-peers small w silence members orderly reached history i n at =
      let trues =
        udp_net-IsTrueMember laws times u clock net small w silence members orderly reached
          history in
      let h =
        All-get_elem? (IsTrueMember laws times u clock net w members) reached.nodes i n trues at in
      let sound = h.steady.sound in
      rw (peers-listing n.backend n.service sound.filed) (
        listing_each (Engine.local_node_id n.backend n.service.engine)
          (IsOfSome (udp_net s u clock w members).nodes) (IsOther members n)
          (λ p stranger met.
            (stranger, some_member laws times u clock net w members p.announcement met))
          n.service.engine.registry.peers sound.not_self sound.filed.filed h.knows)
