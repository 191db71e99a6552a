-- ===== src/Options.antt =====
-- include/softadastra/discovery/DiscoveryOptions.hpp
use discovery.Base.{ℕ, ◌==◌, ◌≡◌, refl, [], arith, Bool, true, not, ◌&&◌, is_empty}
use discovery.Base.Int.{pos, leb_ℤ}
use discovery.Base.Text.{Bytes, codes}
use discovery.External.Time.{Durations}
use discovery.Core.Config
use discovery.Core.Config.{Config}

pub record Options (D : Type 0) : Type 0 where
  pub node_id : Bytes
  pub bind_host : Bytes
  pub bind_port : ℕ
  pub broadcast_host : Bytes
  pub broadcast_port : ℕ
  pub announce_host : Bytes
  pub announce_port : ℕ
  pub announce_interval : D
  pub peer_ttl : D
  pub enable_broadcast : Bool

module _ {D : Type 0} ⦃ds : Durations D⦄ where
  -- DiscoveryOptions{}
  unfoldable pub initial : Options D
  initial = record {
    node_id = [];
    bind_host = codes "0.0.0.0";
    bind_port = 9400;
    broadcast_host = codes "255.255.255.255";
    broadcast_port = 9400;
    announce_host = codes "127.0.0.1";
    announce_port = 0;
    announce_interval = ds.from_seconds 3;
    peer_ttl = ds.from_seconds 15;
    enable_broadcast = true;
  }

  -- DiscoveryOptions(local_node_id, transport_port)
  unfoldable pub make : Bytes → ℕ → Options D
  unfolding initial
  make local_node_id transport_port = record initial {
    node_id = local_node_id;
    announce_port = transport_port;
  }

  unfoldable pub local : Bytes → ℕ → ℕ → Options D
  unfolding make
  local node_id bind_port announce_port = record (make node_id announce_port) {
    bind_host = codes "127.0.0.1";
    bind_port = bind_port;
    broadcast_host = codes "127.0.0.1";
    broadcast_port = bind_port;
    announce_host = codes "127.0.0.1";
  }

  unfoldable pub lan : Bytes → ℕ → ℕ → Options D
  unfolding make
  lan node_id bind_port announce_port = record (make node_id announce_port) {
    bind_host = codes "0.0.0.0";
    bind_port = bind_port;
    broadcast_host = codes "255.255.255.255";
    broadcast_port = bind_port;
    announce_host = codes "127.0.0.1";
    enable_broadcast = true;
  }

  -- The largest datagram keeps its default.
  unfoldable pub to_config : Options D → Config D
  to_config o = record Config.initial {
    bind_host = o.bind_host;
    bind_port = o.bind_port;
    broadcast_host = o.broadcast_host;
    broadcast_port = o.broadcast_port;
    node_id = o.node_id;
    announce_host = o.announce_host;
    announce_port = o.announce_port;
    announce_interval = o.announce_interval;
    peer_ttl = o.peer_ttl;
    enable_broadcast = o.enable_broadcast;
  }

  unfoldable pub is_valid : Options D → Bool
  is_valid o =
      not (is_empty o.node_id)
      && not (is_empty o.bind_host)
      && not (o.bind_port == 0)
      && not (is_empty o.broadcast_host)
      && not (o.broadcast_port == 0)
      && not (is_empty o.announce_host)
      && not (o.announce_port == 0)
      && leb_ℤ (pos 1) (ds.millis o.announce_interval)
      && leb_ℤ (pos 1) (ds.millis o.peer_ttl)

  -- Options are valid exactly when the configuration made of them is.
  pub is_valid-to_config : (o : Options D) → Config.is_valid (to_config o) ≡ is_valid o
  unfolding to_config is_valid Config.is_valid Config.is_positive Config.initial
  is_valid-to_config o = ground arith

  -- The local and the LAN options make the local and the LAN configuration of the same arguments.
  pub to_config-local :
      (node_id : Bytes) (bind_port announce_port : ℕ)
      → (to_config (local node_id bind_port announce_port)
          ≡ Config.local node_id bind_port announce_port)
        × (to_config (lan node_id bind_port announce_port)
            ≡ Config.lan node_id bind_port announce_port)
  unfolding Config.local Config.lan Config.make Config.initial to_config local lan make initial
  to_config-local node_id bind_port announce_port = (refl, refl)
