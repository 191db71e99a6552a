-- ===== src/Tests/Service.antt =====
-- A service on a concrete world.

use discovery.Base.{List, ◌+◌, ◌≡◌, refl, [], ◌∷◌, some, true}
use discovery.Base.Int.{ℤ, pos}
use discovery.Base.Text.{codes}
use discovery.Types.PeerState
use discovery.Types.PeerState.{same_state}
use discovery.Peer.DiscoveredPeer
use discovery.Peer.DiscoveredPeer.{DiscoveredPeer}
use discovery.Peer.Registry
use discovery.Options.{Options}
use discovery.Service
use discovery.Service.{Service}
use discovery.Service.Listing.{listing}
use discovery.Service.Serving.{Request, history}
use discovery.Service.Histories.{history_made_peers}
use discovery.Engine.Invariant.{IsSteady}
use discovery.Tests.Wire.{big_endian}
use discovery.Tests.Data.{clock, spans, infos, node_a, node_b}
use discovery.Tests.Engine.{World, Info, quiet, engine_of, idle_transport}

abbrev options_a : Options ℤ
options_a = record {
  node_id = node_a;
  bind_host = codes "0.0.0.0";
  bind_port = 4000;
  broadcast_host = codes "255.255.255.255";
  broadcast_port = 4000;
  announce_host = codes "h";
  announce_port = 7000;
  announce_interval = pos 3000;
  peer_ttl = pos 15000;
  enable_broadcast = true;
}

abbrev peer_b : DiscoveredPeer ℤ
peer_b = record {
  announcement = record { node_id = node_b; host = codes "h"; port = 7000; timestamp = pos 10 };
  state = PeerState.alive;
  last_seen_at = pos 1000;
  error_count = 0;
}

-- The service of node a, which had counted one peer and now knows node b alone. Its handler counts
-- a thousand on the world's clock.
abbrev service_a : Service World ℤ Info ℤ
service_a = record {
  options = options_a;
  engine = record (engine_of node_a) { registry = record { peers = (node_b, peer_b) ∷ [] } };
  found_handler = some (λ p w. (w.0 + 1000, w.1));
  known_peer_count = 1;
}

-- A peer that takes the place of one that is gone is not announced to the handler.
replacement_unnoticed : Service.notify_new_peers quiet service_a ≡ service_a
unfolding Service.notify_new_peers Registry.available_peers Registry.available_loop
    DiscoveredPeer.available PeerState.is_available
replacement_unnoticed = refl

abbrev requests : List (Request World ℤ)
requests =
    Request.starts
    ∷ Request.sets_handler (some (λ p w. (w.0 + 1000, w.1)))
    ∷ Request.announces
    ∷ Request.polls_many 3
    ∷ Request.lists
    ∷ []

history_made_peers_example :
    IsSteady quiet
      (history big_endian quiet requests (Service.make options_a idle_transport (0, []))).engine
    × ((Service.peers quiet
          (history big_endian quiet requests (Service.make options_a idle_transport (0, [])))).0
        ≡ listing
            (history big_endian quiet requests
              (Service.make options_a idle_transport (0, []))).engine.registry.peers)
history_made_peers_example =
    history_made_peers big_endian quiet requests options_a idle_transport (0, [])
