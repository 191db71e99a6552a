-- ===== src/Peer/Registry/Refresh.antt =====
-- `refresh_states` against its documentation: what it does to a peer by its age, the peers that it
-- brings back from `Expired`, its count, and what `prune_expired` then removes.
use discovery.Base.{
  ◌+◌, ◌≡◌, ◌≢◌, sym, ap, ◌∙◌, [], ◌∷◌, some, Bool, true, false, arith, if◌then◌else◌, length, All,
  Bool-cases, inl, inr, ℕ, get_elem?, All-get_elem?,
}
use discovery.Base.Int.{◌-ℤ◌, leb_ℤ}
use discovery.Base.Text.{Bytes}
use discovery.Base.Dict.{Dict, map_values}
use discovery.External.Time.{Timestamps, Durations}
use discovery.Types.PeerState
use discovery.Types.PeerState.{PeerState, same_state, same_state_iff}
use discovery.Peer.DiscoveredPeer
use discovery.Peer.DiscoveredPeer.{DiscoveredPeer}
use discovery.Peer.Registry
use discovery.Peer.Registry.{Registry, refresh_peer, refresh_states}
use discovery.Peer.Registry.Loops.{
  refreshed, refresh_loop_entries, refresh_loop_count, state_changes, state_changes_self,
  prune_loop_listed, state_loop_kept, prune_loop_entries, prune_loop_count,
}
use discovery.Peer.Registry.View.{view, refresh_states-view}

module _ {T D : Type 0} ⦃ts : Timestamps T⦄ ⦃ds : Durations D⦄ where
  -- The age of the peer is at least the duration.
  abbrev pub older : T → D → DiscoveredPeer T → Bool
  older now limit p = leb_ℤ (ds.millis limit) (ts.millis now -ℤ ts.millis p.last_seen_at)

  -- "Peers older than stale_after become Stale. Peers older than expire_after become Expired.", where
  -- a peer whose age is just the limit counts as older.
  abbrev pub documented : T → D → D → DiscoveredPeer T → PeerState
  documented now stale_after expire_after p =
      if older now expire_after p
      then PeerState.expired
      else if older now stale_after p
      then PeerState.stale
      else p.state

  refreshed-documented :
      (now : T) (stale_after expire_after : D) (p : DiscoveredPeer T)
      → ts.is_valid p.last_seen_at ≡ true
      → p.state ≢ PeerState.expired
      → refreshed now stale_after expire_after p
        ≡ record p { state = documented now stale_after expire_after p }
  unfolding refresh_peer
  refreshed-documented now stale_after expire_after p valid live =
      ground
        (arith, same_state_iff p.state PeerState.expired, same_state_iff p.state PeerState.stale)

  -- A peer with no valid last-seen time is left as it is.
  pub refreshed_unseen :
      (now : T) (stale_after expire_after : D) (p : DiscoveredPeer T)
      → ts.is_valid p.last_seen_at ≡ false
      → refreshed now stale_after expire_after p ≡ p
  unfolding refresh_peer
  refreshed_unseen now stale_after expire_after p unseen = ground arith

  pub refreshed-expired :
      (now : T) (stale_after expire_after : D) (p : DiscoveredPeer T)
      → ts.is_valid p.last_seen_at ≡ true
      → p.state ≡ PeerState.expired
      → older now stale_after p ≡ true
      → refreshed now stale_after expire_after p ≡ record p { state = PeerState.stale }
  unfolding refresh_peer same_state
  refreshed-expired now stale_after expire_after p valid gone old = ground arith

  pub refreshed-stale :
      (now : T) (stale_after expire_after : D) (p : DiscoveredPeer T)
      → ts.is_valid p.last_seen_at ≡ true
      → p.state ≡ PeerState.stale
      → older now expire_after p ≡ true
      → refreshed now stale_after expire_after p ≡ record p { state = PeerState.expired }
  unfolding refresh_peer same_state
  refreshed-stale now stale_after expire_after p valid gone old = ground arith

  -- The peer as it is filed after a refresh at a valid time.
  pub refresh_states_entry :
      (now : T) (stale_after expire_after : D) (r : Registry T) (k : Bytes) (p : DiscoveredPeer T)
      → ts.is_valid now ≡ true
      → view r k ≡ some p
      → view (refresh_states now stale_after expire_after r).0 k
        ≡ some (refreshed now stale_after expire_after p)
  refresh_states_entry now stale_after expire_after r k p valid e =
      rw (refresh_states-view now stale_after expire_after r k, valid, e)

  -- A peer that is not `Expired`, was last seen at a valid time and is filed under some node id is
  -- after refresh_states, at a valid time, filed there as the comment of the source says: `Expired`
  -- if its age is at least `expire_after`, else `Stale` if it is at least `stale_after`, else in the
  -- state that it had; nothing else of the peer changes.
  pub refresh_states-documented :
      (now : T) (stale_after expire_after : D) (r : Registry T) (k : Bytes) (p : DiscoveredPeer T)
      → ts.is_valid now ≡ true
      → view r k ≡ some p
      → ts.is_valid p.last_seen_at ≡ true
      → p.state ≢ PeerState.expired
      → view (refresh_states now stale_after expire_after r).0 k
        ≡ some (record p { state = documented now stale_after expire_after p })
  refresh_states-documented now stale_after expire_after r k p valid e seen live =
      refresh_states_entry now stale_after expire_after r k p valid e
      ∙ ap some (refreshed-documented now stale_after expire_after p seen live)

  -- If last seen at a valid time, the peer is younger than both durations.
  abbrev Fresh : T → D → D → DiscoveredPeer T → Type 0
  Fresh now stale_after expire_after p =
      ts.is_valid p.last_seen_at ≡ true
      → (older now stale_after p ≡ false) × (older now expire_after p ≡ false)

  refreshed-available :
      (now : T) (stale_after expire_after : D) (p : DiscoveredPeer T)
      → DiscoveredPeer.available (refreshed now stale_after expire_after p) ≡ true
      → Fresh now stale_after expire_after (refreshed now stale_after expire_after p)
  unfolding refresh_peer DiscoveredPeer.available PeerState.is_available same_state
  refreshed-available now stale_after expire_after p h = ground arith

  available_loop-Fresh :
      (now : T) (stale_after expire_after : D) (m : Dict (DiscoveredPeer T))
      → All
          (Fresh now stale_after expire_after)
          (Registry.available_loop (map_values (refreshed now stale_after expire_after) m))
  unfolding Registry.available_loop map_values
  available_loop-Fresh now stale_after expire_after [] = tt
  available_loop-Fresh now stale_after expire_after ((k, p) ∷ m) =
      elim (Bool-cases (DiscoveredPeer.available (refreshed now stale_after expire_after p))) [
        | inl e ↦ rw e (
          refreshed-available now stale_after expire_after p e,
          available_loop-Fresh now stale_after expire_after m,
        )
        | inr e ↦ rw e (available_loop-Fresh now stale_after expire_after m)
      ]

  available_peers-Fresh :
      (now : T) (stale_after expire_after : D) (r : Registry T)
      → ts.is_valid now ≡ true
      → All
          (Fresh now stale_after expire_after)
          (Registry.available_peers (refresh_states now stale_after expire_after r).0)
  unfolding refresh_states Registry.available_peers
  available_peers-Fresh now stale_after expire_after r valid =
      rw (valid, refresh_loop_entries now stale_after expire_after r.peers 0)
        (available_loop-Fresh now stale_after expire_after r.peers)

  -- After a refresh at a valid time a peer that available_peers lists, at whatever place, and that
  -- was last seen at a valid time has an age below both limits.
  pub available_peers_fresh :
      (now : T) (stale_after expire_after : D) (r : Registry T) (i : ℕ) (p : DiscoveredPeer T)
      → ts.is_valid now ≡ true
      → get_elem? (Registry.available_peers (refresh_states now stale_after expire_after r).0) i
        ≡ some p
      → ts.is_valid p.last_seen_at ≡ true
      → (older now stale_after p ≡ false) × (older now expire_after p ≡ false)
  available_peers_fresh now stale_after expire_after r i p valid listed =
      All-get_elem? (Fresh now stale_after expire_after)
        (Registry.available_peers (refresh_states now stale_after expire_after r).0) i p
        (available_peers-Fresh now stale_after expire_after r valid) listed

  -- The count that `refresh_states` returns is the number of entries whose state it changed.
  pub refresh_states_count :
      (now : T) (stale_after expire_after : D) (r : Registry T)
      → (refresh_states now stale_after expire_after r).1
        ≡ state_changes r.peers (refresh_states now stale_after expire_after r).0.peers
  unfolding refresh_states
  refresh_states_count now stale_after expire_after r = elim (Bool-cases (ts.is_valid now)) [
    | inr e ↦ rw e (sym (state_changes_self r.peers))
    | inl e ↦
        rw
          (
            e,
            refresh_loop_count now stale_after expire_after r.peers 0,
            refresh_loop_entries now stale_after expire_after r.peers 0,
          )
          (omega arith)
  ]

module _ {T : Type 0} where
  -- `prune_expired` returns the number of peers that `expired_peers` listed, leaves none of them,
  -- and what it returns and the new size add up to the old size.
  pub prune_expired_complete :
      (r : Registry T)
      → ((Registry.prune_expired r).1 ≡ length (Registry.expired_peers r))
        × (Registry.expired_peers (Registry.prune_expired r).0 ≡ [])
        × (Registry.size (Registry.prune_expired r).0 + (Registry.prune_expired r).1
            ≡ Registry.size r)
  unfolding Registry.prune_expired Registry.expired_peers Registry.size
  prune_expired_complete r = (
    prune_loop_listed r.peers 0 ∙ omega arith,
    rw (prune_loop_entries r.peers 0) (state_loop_kept r.peers),
    prune_loop_count r.peers 0 ∙ omega arith,
  )
