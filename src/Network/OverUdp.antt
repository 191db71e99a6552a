-- ===== src/Network/OverUdp.antt =====
-- A network of services over UDP: each is made of its options as `DiscoveryService(options,
-- transport)` makes it, with a UDP backend and a socket of its own.
use discovery.Base.{
  ℕ, ◌+◌, ◌<◌, length, ◌≡◌, ◌≢◌, refl, sym, ap, subst, ◌∙◌, some, All, List, map, get_elem?,
  get_elem?-map, All-map, All-imp, All-get_elem?, arith,
}
use mathlib.Core.Option.{some-injective}
use discovery.Base.Text.{Bytes}
use discovery.External.Serializer.{Serializer, SerializerLaws, FitsU16, FitsI64}
use discovery.External.Carrying.{IsNoNews}
use discovery.External.Time.{Timestamps, Durations, TimestampLaws}
use discovery.External.Transport.{PeerInfos, Transport}
use discovery.Core.Announcement.{Announcement}
use discovery.Core.Config.{Config}
use discovery.Core.Context
use discovery.Core.Context.{Context, ok}
use discovery.Options
use discovery.Options.{Options}
use discovery.Peer.DiscoveredPeer.{DiscoveredPeer}
use discovery.Peer.Published.{Peer}
use discovery.Peer.Registry
use discovery.Platform.{UdpSockets}
use discovery.Backend.Udp
use discovery.Backend.Udp.{Udp, udp_backend}
use discovery.Engine
use discovery.Engine.Conduct.{IsCalm}
use discovery.Service
use discovery.Service.{Service}
use discovery.Service.OverUdp.{make_over_udp}
use discovery.Network.{Sharing, Seen, Node, Net, Reach}
use discovery.Network.Carried.{Carries, IsSpoken, news-IsSpoken, IsCarried, IsCarried-Upholds}
use discovery.Network.Opening.{IsCarried-Switches}
use discovery.Network.Truth.{IsOfSome, IsNew, IsTrue, Reach-IsTrue, true_known}

-- A node's world is its UDP backend's state, and the system is what the nodes share.
abbrev pub system_sharing : {S W D : Type 0} → Sharing (Udp S W D) W
system_sharing = record {
  look = λ b. b.system;
  enter = λ w b. record b { system = w };
  look-enter = λ w b. refl;
}

module _ {S W T P D : Type 0} ⦃ts : Timestamps T⦄ ⦃ds : Durations D⦄ (s : Serializer)
    (u : UdpSockets S W D) (clock : W → T × W) where
  abbrev pub udp_node : W → Options D × Transport (Udp S W D) P → Node (Udp S W D) T P D
  udp_node w (options, transport) = record {
    backend = udp_backend s u clock;
    service = make_over_udp u options transport w;
  }

  -- New services of these options and transport engines.
  abbrev pub udp_net : W → List (Options D × Transport (Udp S W D) P) → Net (Udp S W D) W T P D
  udp_net w members = record { common = w; nodes = map (udp_node w) members }

module _ {S W T D : Type 0} (carried : Bytes → W → Type 0) where
  -- A handler of found peers that puts no datagram on the way.
  abbrev pub IsDiscreet : (Peer T → Udp S W D → Udp S W D) → Type 0
  IsDiscreet f = (p : Peer T) (b : Udp S W D) → IsNoNews carried b.system (f p b).system

module _ {S W P D : Type 0} (carried : Bytes → W → Type 0) where
  -- Connecting a peer puts no datagram on the way.
  abbrev pub IsSilent : Transport (Udp S W D) P → Type 0
  IsSilent t = (p : P) (b : Udp S W D) → IsNoNews carried b.system (t.connect_peer p b).system

  -- What is asked of a service's options and transport engine.
  pub record IsOrderly (member : Options D × Transport (Udp S W D) P) : Type 0 where
    pub brief : length member.0.node_id + length member.0.announce_host < 2147480000
    pub port : FitsU16 member.0.announce_port
    pub silent : IsSilent member.1

module _ {V P D : Type 0} where
  -- The node id, host and port that one of the services announces.
  abbrev pub IsOfMember : List (Options D × Transport V P) → Bytes → Bytes → ℕ → Type 0
  IsOfMember members node_id host port =
      (j : ℕ) × (member : Options D × Transport V P) × (get_elem? members j ≡ some member)
      × ((node_id ≡ member.0.node_id)
          × (host ≡ member.0.announce_host)
          × (port ≡ member.0.announce_port))

module _ {S W T P D : Type 0} ⦃ts : Timestamps T⦄ ⦃ds : Durations D⦄ ⦃infos : PeerInfos P⦄
    {s : Serializer} (laws : SerializerLaws s) (times : TimestampLaws ts) (u : UdpSockets S W D)
    (clock : W → T × W) {carried : Bytes → W → Type 0} (net : Carries u clock carried) where
  context_config :
      (options : Options D) (t : Transport (Udp S W D) P) (config : Config D)
      → Context.config_checked (Context.make (Options.to_config options) t) ≡ ok config
      → config ≡ Options.to_config options
  unfolding Context.config_checked Context.make
  context_config options t config h = ground (arith, h)

  member-IsCalm :
      (Met : Announcement T → Type 0) (options : Options D) (t : Transport (Udp S W D) P)
      → IsSilent carried t
      → IsCalm (IsCarried laws u clock net Met) Met (Context.make (Options.to_config options) t)
  unfolding Context.make
  member-IsCalm Met options t silent t' has a b met spoken =
      let peer : P = infos.make a.node_id a.host a.port in
      subst
        (λ (x : Transport (Udp S W D) P). IsCarried laws u clock net Met (x.connect_peer peer b))
        (some-injective t t' has)
        (news-IsSpoken laws u clock net Met b.system (t.connect_peer peer b).system (silent peer b)
          spoken)

  member-IsNew :
      (small : (w : W) → FitsI64 (ts.millis (clock w).0))
      → (Met : Announcement T → Type 0) (w : W) (member : Options D × Transport (Udp S W D) P)
      → IsOrderly carried member
      → IsNew s Met (IsCarried laws u clock net Met) (udp_node s u clock w member)
  unfolding make_over_udp Service.make Engine.make Registry.empty_registry udp_backend Udp.now
      Options.to_config
  member-IsNew small Met w (options, t) h = record {
    switches = IsCarried-Switches laws u clock net Met;
    upholds = IsCarried-Upholds laws u clock net Met;
    calm = member-IsCalm Met options t h.silent;
    small = λ b spoken. small b.system;
    fits = λ config checked.
        subst
          (λ (x : Config D).
            (length x.node_id + length x.announce_host < 2147480000) × FitsU16 x.announce_port)
          (sym (context_config options t config checked)) (h.brief, h.port);
    idle = (refl, refl);
    unset = refl;
  }

  pub some_member :
      (w : W) (members : List (Options D × Transport (Udp S W D) P)) (a : Announcement T)
      → IsOfSome (udp_net s u clock w members).nodes a
      → IsOfMember members a.node_id a.host a.port
  unfolding make_over_udp Service.make Engine.make Options.to_config
  some_member w members a (j, n, at, (config, checked, id, host, port)) =
      let (member, there, same) = get_elem?-map (udp_node s u clock w) members j n at in
      let itself : config ≡ Options.to_config member.0 = context_config member.0 member.1 config (
        ap (λ (x : Node (Udp S W D) T P D). Context.config_checked x.service.engine.context) same
        ∙ checked) in
      (
        j,
        member,
        there,
        (
          id ∙ ap (λ (x : Config D). x.node_id) itself,
          host ∙ ap (λ (x : Config D). x.announce_host) itself,
          port ∙ ap (λ (x : Config D). x.announce_port) itself,
        ),
      )

  -- What is true of the nodes of a network over UDP.
  abbrev pub IsTrueMember :
      W → List (Options D × Transport (Udp S W D) P) → Node (Udp S W D) T P D → Type 0
  IsTrueMember w members =
      IsTrue s (IsOfSome (udp_net s u clock w members).nodes)
        (IsCarried laws u clock net (IsOfSome (udp_net s u clock w members).nodes))
        (IsDiscreet carried)

  pub udp_net-IsTrueMember :
      ((w : W) → FitsI64 (ts.millis (clock w).0))
      → (w : W) → ((p : Bytes) → ¬ carried p w)
      → (members : List (Options D × Transport (Udp S W D) P)) → All (IsOrderly carried) members
      → (reached : Net (Udp S W D) W T P D)
      → Reach s system_sharing
          (IsDiscreet carried)
          (IsNoNews carried)
          (udp_net s u clock w members)
          reached
      → All (IsTrueMember w members) reached.nodes
  udp_net-IsTrueMember small w silence members orderly reached history =
      let start : Net (Udp S W D) W T P D = udp_net s u clock w members in
      let Met : Announcement T → Type 0 = IsOfSome start.nodes in
      let Good : W → Type 0 = IsSpoken laws u clock net Met in
      let fresh : All (IsNew s Met (Seen system_sharing Good)) start.nodes =
        All-map (IsNew s Met (Seen system_sharing Good)) (udp_node s u clock w) members (
          All-imp (IsOrderly carried)
            (λ member. IsNew s Met (Seen system_sharing Good) (udp_node s u clock w member)) members
            (member-IsNew small Met w) orderly) in
      Reach-IsTrue laws times system_sharing Good
        (λ f discreet peer b.
          news-IsSpoken laws u clock net Met b.system (f peer b).system (discreet peer b))
        (news-IsSpoken laws u clock net Met) start reached
        (record { said = λ q on_way. absurd (silence q on_way) }) fresh history

  -- A network of services made of any options and transport engines, each over a UDP backend,
  -- where at first nothing is on the way. With a serializer and timestamps that keep their laws, a
  -- clock within 64 bits, a network that makes nothing up, a node id and an announced host below 2
  -- GiB together and a port of 16 bits in each service's options, and where neither connecting a
  -- peer nor a handler of found peers puts a datagram on the way: whatever requests the services
  -- serve, in whatever order, and whatever the network loses and brings in between, a peer in a
  -- service's registry stands under its own node id, which is not the service's, and has the node
  -- id, host and port that one of the services announces.
  pub udp_net-IsOfMember :
      ((w : W) → FitsI64 (ts.millis (clock w).0))
      → (w : W) → ((p : Bytes) → ¬ carried p w)
      → (members : List (Options D × Transport (Udp S W D) P)) → All (IsOrderly carried) members
      → (reached : Net (Udp S W D) W T P D)
      → Reach s system_sharing
          (IsDiscreet carried)
          (IsNoNews carried)
          (udp_net s u clock w members)
          reached
      → (i : ℕ) (n : Node (Udp S W D) T P D) (k : Bytes) (p : DiscoveredPeer T)
      → get_elem? reached.nodes i ≡ some n
      → Registry.get k n.service.engine.registry ≡ some p
      → (p.announcement.node_id ≡ k)
        × (k ≢ Engine.local_node_id n.backend n.service.engine)
        × IsOfMember members p.announcement.node_id p.announcement.host p.announcement.port
  udp_net-IsOfMember small w silence members orderly reached history i n k p at found =
      let Met : Announcement T → Type 0 = IsOfSome (udp_net s u clock w members).nodes in
      let trues : All (IsTrueMember w members) reached.nodes =
        udp_net-IsTrueMember small w silence members orderly reached history in
      let (keyed, other, met) =
        true_known laws times (IsCarried laws u clock net Met) (IsDiscreet carried) Met n k p
          (All-get_elem? (IsTrueMember w members) reached.nodes i n trues at) found in
      (keyed, other, some_member w members p.announcement met)
