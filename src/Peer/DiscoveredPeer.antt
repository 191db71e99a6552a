-- ===== src/Peer/DiscoveredPeer.antt =====
-- include/softadastra/discovery/peer/DiscoveredPeer.hpp. `now` is what `Timestamp::now()` returns
-- inside the call.
use discovery.Base.{ℕ, ◌+◌, ◌%◌, Bool, ◌&&◌}
use discovery.Base.Text.{Bytes}
use discovery.External.Time.{Timestamps}
use discovery.External.Transport.{PeerInfos}
use discovery.Types.PeerState
use discovery.Types.PeerState.{PeerState, same_state}
use discovery.Core.Announcement
use discovery.Core.Announcement.{Announcement}

pub record DiscoveredPeer (T : Type 0) : Type 0 where
  pub announcement : Announcement T
  pub state : PeerState
  pub last_seen_at : T
  pub error_count : ℕ

module _ {T : Type 0} where
  -- DiscoveredPeer(announcement)
  unfoldable pub make : T → Announcement T → DiscoveredPeer T
  make now a = record {
    announcement = a;
    state = PeerState.discovered;
    last_seen_at = now;
    error_count = 0;
  }

  abbrev pub node_id : DiscoveredPeer T → Bytes
  node_id p = p.announcement.node_id

  unfoldable pub available : DiscoveredPeer T → Bool
  available p = PeerState.is_available p.state

  unfoldable pub discovered : DiscoveredPeer T → Bool
  discovered p = same_state p.state PeerState.discovered

  unfoldable pub alive : DiscoveredPeer T → Bool
  alive p = same_state p.state PeerState.alive

  unfoldable pub stale : DiscoveredPeer T → Bool
  stale p = same_state p.state PeerState.stale

  unfoldable pub expired : DiscoveredPeer T → Bool
  expired p = same_state p.state PeerState.expired

  unfoldable pub touch : T → DiscoveredPeer T → DiscoveredPeer T
  touch now p = record p { last_seen_at = now }

  unfoldable pub mark_discovered : T → DiscoveredPeer T → DiscoveredPeer T
  unfolding touch
  mark_discovered now p = touch now (record p { state = PeerState.discovered })

  unfoldable pub mark_alive : T → DiscoveredPeer T → DiscoveredPeer T
  unfolding touch
  mark_alive now p = touch now (record p { state = PeerState.alive })

  unfoldable pub mark_stale : T → DiscoveredPeer T → DiscoveredPeer T
  unfolding touch
  mark_stale now p = touch now (record p { state = PeerState.stale })

  unfoldable pub mark_expired : T → DiscoveredPeer T → DiscoveredPeer T
  unfolding touch
  mark_expired now p = touch now (record p { state = PeerState.expired })

  -- The error count is a uint32.
  unfoldable pub mark_error : T → DiscoveredPeer T → DiscoveredPeer T
  unfolding touch
  mark_error now p = touch now (record p { error_count = (p.error_count + 1) % 4294967296 })

  unfoldable pub update : T → Announcement T → DiscoveredPeer T → DiscoveredPeer T
  unfolding mark_alive
  update now a p = mark_alive now (record p { announcement = a })

  unfoldable pub to_peer_info : {P : Type 0} ⦃infos : PeerInfos P⦄ → DiscoveredPeer T → P
  to_peer_info ⦃infos⦄ p = infos.make p.announcement.node_id p.announcement.host p.announcement.port

module _ {T : Type 0} ⦃ts : Timestamps T⦄ where
  -- DiscoveredPeer{}
  unfoldable pub initial : DiscoveredPeer T
  initial = record {
    announcement = Announcement.initial;
    state = PeerState.unknown;
    last_seen_at = ts.unset;
    error_count = 0;
  }

  unfoldable pub is_valid : DiscoveredPeer T → Bool
  is_valid p = Announcement.is_valid p.announcement && PeerState.is_valid p.state

  unfoldable pub clear : DiscoveredPeer T → DiscoveredPeer T
  clear p = record {
    announcement = Announcement.clear p.announcement;
    state = PeerState.unknown;
    last_seen_at = ts.unset;
    error_count = 0;
  }
