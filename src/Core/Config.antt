-- ===== src/Core/Config.antt =====
-- include/softadastra/discovery/core/DiscoveryConfig.hpp
use discovery.Base.{ℕ, ◌==◌, ◌*◌, [], Bool, true, not, ◌&&◌, is_empty, ltb}
use discovery.Base.Int.{pos, leb_ℤ}
use discovery.Base.Text.{Bytes, codes}
use discovery.External.Time.{Durations}

pub record Config (D : Type 0) : Type 0 where
  pub bind_host : Bytes
  pub bind_port : ℕ
  pub broadcast_host : Bytes
  pub broadcast_port : ℕ
  pub node_id : Bytes
  pub announce_host : Bytes
  pub announce_port : ℕ
  pub announce_interval : D
  pub peer_ttl : D
  pub max_datagram_size : ℕ
  pub enable_broadcast : Bool

module _ {D : Type 0} ⦃ds : Durations D⦄ where
  -- DiscoveryConfig{}
  unfoldable pub initial : Config D
  initial = record {
    bind_host = codes "0.0.0.0";
    bind_port = 0;
    broadcast_host = codes "255.255.255.255";
    broadcast_port = 0;
    node_id = [];
    announce_host = codes "127.0.0.1";
    announce_port = 0;
    announce_interval = ds.from_seconds 3;
    peer_ttl = ds.from_seconds 15;
    max_datagram_size = 64 * 1024;
    enable_broadcast = true;
  }

  -- DiscoveryConfig(node_id, bind_port, announce_port)
  unfoldable pub make : Bytes → ℕ → ℕ → Config D
  unfolding initial
  make node_id bind_port announce_port = record initial {
    bind_port = bind_port;
    broadcast_port = bind_port;
    node_id = node_id;
    announce_port = announce_port;
  }

  unfoldable pub local : Bytes → ℕ → ℕ → Config D
  unfolding make
  local node_id bind_port announce_port = record (make node_id bind_port announce_port) {
    bind_host = codes "127.0.0.1";
    broadcast_host = codes "127.0.0.1";
    announce_host = codes "127.0.0.1";
  }

  unfoldable pub lan : Bytes → ℕ → ℕ → Config D
  unfolding make
  lan node_id bind_port announce_port = record (make node_id bind_port announce_port) {
    bind_host = codes "0.0.0.0";
    broadcast_host = codes "255.255.255.255";
    announce_host = codes "127.0.0.1";
    enable_broadcast = true;
  }

  -- millis() > 0
  unfoldable pub is_positive : D → Bool
  is_positive d = leb_ℤ (pos 1) (ds.millis d)

  unfoldable pub is_valid : Config D → Bool
  unfolding is_positive
  is_valid c =
      not (is_empty c.bind_host)
      && not (c.bind_port == 0)
      && not (is_empty c.broadcast_host)
      && not (c.broadcast_port == 0)
      && not (is_empty c.node_id)
      && not (is_empty c.announce_host)
      && not (c.announce_port == 0)
      && is_positive c.announce_interval
      && is_positive c.peer_ttl
      && ltb 0 c.max_datagram_size
