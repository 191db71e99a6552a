-- ===== src/Peer/Published.antt =====
-- include/softadastra/discovery/Peer.hpp, the peer that the service hands out. `now` is what
-- `Timestamp::now()` returns inside the call.
use discovery.Base.{ℕ, ◌==◌, [], Bool, not, ◌&&◌, ◌||◌, is_empty}
use discovery.Base.Text.{Bytes, codes, same_text}
use discovery.External.Time.{Timestamps}
use discovery.External.Transport.{PeerInfos}
use discovery.Peer.DiscoveredPeer.{DiscoveredPeer}

pub record Peer (T : Type 0) : Type 0 where
  pub node_id : Bytes
  pub host : Bytes
  pub port : ℕ
  pub last_seen_at : T

module _ {T : Type 0} where
  -- Peer(peer_node_id, peer_host, peer_port)
  unfoldable pub make : T → Bytes → Bytes → ℕ → Peer T
  make now peer_node_id peer_host peer_port = record {
    node_id = peer_node_id;
    host = peer_host;
    port = peer_port;
    last_seen_at = now;
  }

  unfoldable pub from_transport_peer : {P : Type 0} ⦃infos : PeerInfos P⦄ → T → P → Peer T
  unfolding make
  from_transport_peer ⦃infos⦄ now peer =
      make now (infos.node_id peer) (infos.host peer) (infos.port peer)

  unfoldable pub from_discovered_peer : T → DiscoveredPeer T → Peer T
  unfolding make
  from_discovered_peer now peer =
      record (make now peer.announcement.node_id peer.announcement.host peer.announcement.port) {
        last_seen_at = peer.last_seen_at;
      }

  unfoldable pub to_transport_peer : {P : Type 0} ⦃infos : PeerInfos P⦄ → Peer T → P
  to_transport_peer ⦃infos⦄ p = infos.make p.node_id p.host p.port

  unfoldable pub is_localhost : Peer T → Bool
  is_localhost p = same_text p.host (codes "127.0.0.1") || same_text p.host (codes "localhost")

  unfoldable pub touch : T → Peer T → Peer T
  touch now p = record p { last_seen_at = now }

module _ {T : Type 0} ⦃ts : Timestamps T⦄ where
  -- Peer{}
  unfoldable pub initial : Peer T
  initial = record { node_id = []; host = []; port = 0; last_seen_at = ts.unset }

  unfoldable pub is_valid : Peer T → Bool
  is_valid p =
      not (is_empty p.node_id)
      && not (is_empty p.host)
      && not (p.port == 0)
      && ts.is_valid p.last_seen_at

  unfoldable pub clear : Peer T → Peer T
  clear p = record { node_id = []; host = []; port = 0; last_seen_at = ts.unset }
