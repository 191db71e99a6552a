-- ===== src/Core/Announcement.antt =====
-- include/softadastra/discovery/core/DiscoveryAnnouncement.hpp
use discovery.Base.{ℕ, ◌==◌, [], Bool, not, ◌&&◌, ◌||◌, is_empty}
use discovery.Base.Text.{Bytes, codes, same_text}
use discovery.External.Time.{Timestamps}

pub record Announcement (T : Type 0) : Type 0 where
  pub node_id : Bytes
  pub host : Bytes
  pub port : ℕ
  pub timestamp : T

module _ {T : Type 0} where
  -- DiscoveryAnnouncement(node_id, host, port), at the time `now`.
  unfoldable pub make : T → Bytes → Bytes → ℕ → Announcement T
  make now node_id host port = record {
    node_id = node_id;
    host = host;
    port = port;
    timestamp = now;
  }

  unfoldable pub local : T → Bytes → ℕ → Announcement T
  unfolding make
  local now node_id port = make now node_id (codes "127.0.0.1") port

  unfoldable pub is_localhost : Announcement T → Bool
  is_localhost a = same_text a.host (codes "127.0.0.1") || same_text a.host (codes "localhost")

  unfoldable pub touch : T → Announcement T → Announcement T
  touch now a = record a { timestamp = now }

module _ {T : Type 0} ⦃ts : Timestamps T⦄ where
  -- DiscoveryAnnouncement{}
  unfoldable pub initial : Announcement T
  initial = record { node_id = []; host = codes "127.0.0.1"; port = 0; timestamp = ts.unset }

  unfoldable pub is_valid : Announcement T → Bool
  is_valid a =
      not (is_empty a.node_id)
      && not (is_empty a.host)
      && not (a.port == 0)
      && ts.is_valid a.timestamp

  unfoldable pub clear : Announcement T → Announcement T
  clear a = record { node_id = []; host = []; port = 0; timestamp = ts.unset }
