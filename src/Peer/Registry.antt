-- ===== src/Peer/Registry.antt =====
-- include/softadastra/discovery/peer/DiscoveryRegistry.hpp. An operation that changes the registry
-- returns the new one, with the result beside it where the source returns one.
pub mod Loops
pub mod Calls
pub mod Invariant
pub mod View
pub mod Refresh
pub mod Flapping
pub mod Unordered
use discovery.Base.{
  ℕ, ◌+◌, Option, none, some, List, [], ◌∷◌, Bool, true, false, not, ◌&&◌, length, is_empty,
  is_some, if◌then◌else◌,
}
use discovery.Base.Int.{ℤ, ◌-ℤ◌, leb_ℤ}
use discovery.Base.Text.{Bytes}
use discovery.Base.Dict
use discovery.Base.Dict.{Dict, lookup, insert, adjust}
use discovery.External.Time.{Timestamps, Durations}
use discovery.External.Transport.{PeerInfos}
use discovery.Types.PeerState
use discovery.Types.PeerState.{PeerState, same_state}
use discovery.Core.Announcement
use discovery.Core.Announcement.{Announcement}
use discovery.Peer.DiscoveredPeer
use discovery.Peer.DiscoveredPeer.{DiscoveredPeer, node_id}

pub record Registry (T : Type 0) : Type 0 where
  pub peers : Dict (DiscoveredPeer T)

module _ {T : Type 0} where
  unfoldable pub empty_registry : Registry T
  empty_registry = record { peers = [] }

  unfoldable pub contains : Bytes → Registry T → Bool
  contains k r = is_some (lookup k r.peers)

  unfoldable pub get : Bytes → Registry T → Option (DiscoveredPeer T)
  get k r = lookup k r.peers

  unfoldable pub find : Bytes → Registry T → Option (DiscoveredPeer T)
  find k r = lookup k r.peers

  -- `peers_.erase(node_id) > 0`
  unfoldable pub erase : Bytes → Registry T → Registry T × Bool
  erase k r = (record { peers = Dict.erase k r.peers }, is_some (lookup k r.peers))

  -- `find`, and where there is a peer a change through the pointer.
  unfoldable pub change :
      Bytes → (DiscoveredPeer T → DiscoveredPeer T) → Registry T → Registry T × Bool
  unfolding find
  change k f r = elim (find k r) [
    | none ↦ (r, false)
    | some p ↦ (record { peers = adjust k f r.peers }, true)
  ]

  unfoldable pub set_state : T → Bytes → PeerState → Registry T → Registry T × Bool
  unfolding change
  set_state now k state r =
      if not (PeerState.is_valid state)
      then (r, false)
      else change k (λ p. DiscoveredPeer.touch now (record p { state = state })) r

  unfoldable pub mark_discovered : T → Bytes → Registry T → Registry T × Bool
  unfolding change
  mark_discovered now k = change k (DiscoveredPeer.mark_discovered now)

  unfoldable pub mark_alive : T → Bytes → Registry T → Registry T × Bool
  unfolding change
  mark_alive now k = change k (DiscoveredPeer.mark_alive now)

  unfoldable pub mark_stale : T → Bytes → Registry T → Registry T × Bool
  unfolding change
  mark_stale now k = change k (DiscoveredPeer.mark_stale now)

  unfoldable pub mark_expired : T → Bytes → Registry T → Registry T × Bool
  unfolding change
  mark_expired now k = change k (DiscoveredPeer.mark_expired now)

  unfoldable pub touch : T → Bytes → Registry T → Registry T × Bool
  unfolding change
  touch now k = change k (DiscoveredPeer.touch now)

  unfoldable pub mark_error : T → Bytes → Registry T → Registry T × Bool
  unfolding change
  mark_error now k = change k (DiscoveredPeer.mark_error now)

  -- The loop of `prune_expired`: the entries that stay, and the count of those removed.
  unfoldable pub prune_loop : Dict (DiscoveredPeer T) → ℕ → Dict (DiscoveredPeer T) × ℕ
  prune_loop [] removed = ([], removed)
  prune_loop ((k, p) ∷ rest) removed =
      let drop_it = prune_loop rest (removed + 1) in
      let keep_it = prune_loop rest removed in
      if DiscoveredPeer.expired p then drop_it else ((k, p) ∷ keep_it.0, keep_it.1)

  unfoldable pub prune_expired : Registry T → Registry T × ℕ
  unfolding prune_loop
  prune_expired r =
      let (peers, removed) = prune_loop r.peers 0 in (record { peers = peers }, removed)

  unfoldable pub size : Registry T → ℕ
  size r = length r.peers

  unfoldable pub empty : Registry T → Bool
  empty r = is_empty r.peers

  unfoldable pub clear : Registry T → Registry T
  clear r = record { peers = [] }

  abbrev pub entries : Registry T → Dict (DiscoveredPeer T)
  entries r = r.peers

  unfoldable pub all_loop : Dict (DiscoveredPeer T) → List (DiscoveredPeer T)
  all_loop [] = []
  all_loop ((k, p) ∷ rest) = p ∷ all_loop rest

  unfoldable pub all : Registry T → List (DiscoveredPeer T)
  unfolding all_loop
  all r = all_loop r.peers

  unfoldable pub available_loop : Dict (DiscoveredPeer T) → List (DiscoveredPeer T)
  available_loop [] = []
  available_loop ((k, p) ∷ rest) =
      let found = available_loop rest in if DiscoveredPeer.available p then p ∷ found else found

  unfoldable pub available_peers : Registry T → List (DiscoveredPeer T)
  unfolding available_loop
  available_peers r = available_loop r.peers

  unfoldable pub state_loop : PeerState → Dict (DiscoveredPeer T) → List (DiscoveredPeer T)
  state_loop wanted [] = []
  state_loop wanted ((k, p) ∷ rest) =
      let found = state_loop wanted rest in if same_state p.state wanted then p ∷ found else found

  unfoldable pub by_state : PeerState → Registry T → List (DiscoveredPeer T)
  unfolding state_loop
  by_state wanted r = state_loop wanted r.peers

  unfoldable pub alive_peers : Registry T → List (DiscoveredPeer T)
  unfolding by_state
  alive_peers = by_state PeerState.alive

  unfoldable pub stale_peers : Registry T → List (DiscoveredPeer T)
  unfolding by_state
  stale_peers = by_state PeerState.stale

  unfoldable pub expired_peers : Registry T → List (DiscoveredPeer T)
  unfolding by_state
  expired_peers = by_state PeerState.expired

module _ {T P : Type 0} ⦃infos : PeerInfos P⦄ where
  unfoldable pub transport_loop : Dict (DiscoveredPeer T) → List P
  transport_loop [] = []
  transport_loop ((k, p) ∷ rest) =
      let found = transport_loop rest in
      if not (DiscoveredPeer.expired p) && infos.is_valid (DiscoveredPeer.to_peer_info p)
      then DiscoveredPeer.to_peer_info p ∷ found
      else found

  unfoldable pub transport_peers : Registry T → List P
  unfolding transport_loop
  transport_peers r = transport_loop r.peers

module _ {T : Type 0} ⦃ts : Timestamps T⦄ where
  unfoldable pub upsert : DiscoveredPeer T → Registry T → Registry T
  upsert p r =
      if not (DiscoveredPeer.is_valid p) then r else record { peers = insert (node_id p) p r.peers }

  unfoldable pub upsert_announcement : T → Announcement T → Registry T → Registry T
  unfolding upsert find
  upsert_announcement now a r =
      if not (Announcement.is_valid a) then r else elim (find a.node_id r) [
        | some existing ↦ record { peers = adjust a.node_id (DiscoveredPeer.update now a) r.peers }
        | none ↦ upsert (DiscoveredPeer.mark_alive now (DiscoveredPeer.make now a)) r
      ]

  unfoldable pub touch_at : T → Bytes → Registry T → Registry T × Bool
  unfolding change
  touch_at timestamp k r =
      if not (ts.is_valid timestamp)
      then (r, false)
      else change k (λ p. record p { last_seen_at = timestamp }) r

module _ {T D : Type 0} ⦃ts : Timestamps T⦄ ⦃ds : Durations D⦄ where
  -- One round of the loop of `refresh_states`: the peer, and whether its state changed.
  unfoldable pub refresh_peer : T → D → D → DiscoveredPeer T → DiscoveredPeer T × Bool
  refresh_peer now stale_after expire_after p =
      let age_ms = ts.millis now -ℤ ts.millis p.last_seen_at in
      if not (ts.is_valid p.last_seen_at)
      then (p, false)
      else if leb_ℤ (ds.millis expire_after) age_ms && not (same_state p.state PeerState.expired)
      then (record p { state = PeerState.expired }, true)
      else if leb_ℤ (ds.millis stale_after) age_ms && not (same_state p.state PeerState.stale)
      then (record p { state = PeerState.stale }, true)
      else (p, false)

  unfoldable pub refresh_loop :
      T → D → D → Dict (DiscoveredPeer T) → ℕ → Dict (DiscoveredPeer T) × ℕ
  refresh_loop now stale_after expire_after [] changed = ([], changed)
  refresh_loop now stale_after expire_after ((k, p) ∷ rest) changed =
      let (p', differs) = refresh_peer now stale_after expire_after p in
      let (rest', total) =
        refresh_loop now stale_after expire_after rest (if differs then changed + 1 else changed) in
      ((k, p') ∷ rest', total)

  unfoldable pub refresh_states : T → D → D → Registry T → Registry T × ℕ
  unfolding refresh_loop
  refresh_states now stale_after expire_after r =
      if not (ts.is_valid now)
      then (r, 0)
      else let (peers, changed) = refresh_loop now stale_after expire_after r.peers 0 in
        (record { peers = peers }, changed)
