-- ===== src/Peer/Registry/Loops.antt =====
-- The loops of DiscoveryRegistry.hpp, as one pass over the entries and a count.
use discovery.Base.{ℕ, ◌+◌, ◌≡◌, refl, ap, [], ◌∷◌, Bool, not, length, arith, if◌then◌else◌}
use discovery.Base.Dict.{Dict, map_values, keep_values}
use discovery.External.Time.{Timestamps, Durations}
use discovery.Types.PeerState.{PeerState, same_state, same_state_iff}
use discovery.Peer.DiscoveredPeer
use discovery.Peer.DiscoveredPeer.{DiscoveredPeer}
use discovery.Peer.Registry.{prune_loop, state_loop, refresh_loop, refresh_peer}

module _ {T : Type 0} where
  abbrev pub not_expired : DiscoveredPeer T → Bool
  not_expired p = not (DiscoveredPeer.expired p)

  pub prune_loop_entries :
      (m : Dict (DiscoveredPeer T)) (n : ℕ) → (prune_loop m n).0 ≡ keep_values not_expired m
  unfolding prune_loop keep_values
  prune_loop_entries [] n = refl
  prune_loop_entries ((k, p) ∷ m) n =
      ground (arith, prune_loop_entries m n, prune_loop_entries m (n + 1))

  pub prune_loop_count :
      (m : Dict (DiscoveredPeer T)) (n : ℕ)
      → length (prune_loop m n).0 + (prune_loop m n).1 ≡ length m + n
  unfolding prune_loop
  prune_loop_count [] n = refl
  prune_loop_count ((k, p) ∷ m) n = ground (arith, prune_loop_count m n, prune_loop_count m (n + 1))

  -- In how many places two lists of entries of one length differ in the state.
  abbrev pub state_changes : Dict (DiscoveredPeer T) → Dict (DiscoveredPeer T) → ℕ
  state_changes [] m = 0
  state_changes (e ∷ l) [] = 0
  state_changes ((j, p) ∷ l) ((k, q) ∷ m) =
      (if same_state p.state q.state then 0 else 1) + state_changes l m

  pub state_changes_self : (m : Dict (DiscoveredPeer T)) → state_changes m m ≡ 0
  state_changes_self [] = refl
  state_changes_self ((k, p) ∷ m) =
      rw ((same_state_iff p.state p.state).1 refl, state_changes_self m)

  -- The loop of `prune_expired` removes what `expired_peers` lists.
  pub prune_loop_listed :
      (m : Dict (DiscoveredPeer T)) (n : ℕ)
      → (prune_loop m n).1 ≡ length (state_loop PeerState.expired m) + n
  unfolding prune_loop state_loop DiscoveredPeer.expired
  prune_loop_listed [] n = omega arith
  prune_loop_listed ((k, p) ∷ m) n =
      ground (arith, prune_loop_listed m n, prune_loop_listed m (n + 1))

  pub state_loop_kept :
      (m : Dict (DiscoveredPeer T)) → state_loop PeerState.expired (keep_values not_expired m) ≡ []
  unfolding state_loop keep_values DiscoveredPeer.expired
  state_loop_kept [] = refl
  state_loop_kept ((k, p) ∷ m) = ground (arith, state_loop_kept m)

module _ {T D : Type 0} ⦃ts : Timestamps T⦄ ⦃ds : Durations D⦄ (now : T)
    (stale_after expire_after : D) where
  abbrev pub refreshed : DiscoveredPeer T → DiscoveredPeer T
  refreshed p = (refresh_peer now stale_after expire_after p).0

  pub refresh_loop_entries :
      (m : Dict (DiscoveredPeer T)) (n : ℕ)
      → (refresh_loop now stale_after expire_after m n).0 ≡ map_values refreshed m
  unfolding refresh_loop map_values
  refresh_loop_entries [] n = refl
  refresh_loop_entries ((k, p) ∷ m) n = ap (◌∷◌ (k, refreshed p)) (refresh_loop_entries m _)

  refresh_peer_changed :
      (p : DiscoveredPeer T)
      → (refresh_peer now stale_after expire_after p).1
        ≡ not (same_state p.state (refreshed p).state)
  unfolding refresh_peer same_state
  refresh_peer_changed p = ground arith

  pub refresh_loop_count :
      (m : Dict (DiscoveredPeer T)) (n : ℕ)
      → (refresh_loop now stale_after expire_after m n).1
        ≡ n + state_changes m (map_values refreshed m)
  unfolding refresh_loop map_values
  refresh_loop_count [] n = omega arith
  refresh_loop_count ((k, p) ∷ m) n =
      ground (arith, refresh_peer_changed p, refresh_loop_count m n, refresh_loop_count m (n + 1))
