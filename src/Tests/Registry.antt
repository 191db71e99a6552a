-- ===== src/Tests/Registry.antt =====
-- The registry on concrete histories.
use discovery.Base.{ℕ, arith, sym, ◌∙◌, ◌+◌, ◌≡◌, refl, [], ◌∷◌, List, some, none, length, false}
use discovery.Base.Int.{ℤ, pos, ◌-ℤ◌}
use discovery.Base.Text.{Bytes, same_text, same_text_iff, codes}
use discovery.Base.Dict.{lookup}
use discovery.Types.PeerState
use discovery.Types.PeerState.{same_state}
use discovery.Core.Announcement.{Announcement}
use discovery.Peer.Registry.Unordered.{IsAlike, Agrees, run-Agrees}
use discovery.Peer.DiscoveredPeer
use discovery.Peer.DiscoveredPeer.{DiscoveredPeer}
use discovery.Peer.Registry
use discovery.Peer.Registry.{Registry, refresh_states, refresh_peer, refresh_loop}
use discovery.Peer.Registry.Loops.{state_changes}
use discovery.Peer.Registry.Calls.{Call, run}
use discovery.Peer.Registry.Invariant.{IsWellFormed, run_empty-IsWellFormed}
use discovery.Peer.Registry.View.{view, effects, run_empty-view}
use discovery.Peer.Registry.Flapping.{refresh_all, expired_flaps}
use discovery.Peer.Registry.Refresh.{
  older, refresh_states-documented, available_peers_fresh, refresh_states_count,
  prune_expired_complete,
}
use discovery.Tests.Data.{clock, spans, infos, notice, gone_peer, node_a, node_b}

-- Announced, refreshed late, pruned.
abbrev history : List (Call ℤ ℤ)
history =
    Call.announces (pos 1000) notice
    ∷ Call.touches (pos 2000) node_b
    ∷ Call.refreshes (pos 20000) (pos 7500) (pos 15000)
    ∷ Call.prunes
    ∷ []

abbrev one_gone : Registry ℤ
one_gone = record { peers = (node_b, gone_peer) ∷ [] }

run_empty-IsWellFormed_example : IsWellFormed (run history Registry.empty_registry)
run_empty-IsWellFormed_example = run_empty-IsWellFormed history

run_empty-view_example :
    view (run history Registry.empty_registry) node_b ≡ effects history (λ k. none) node_b
run_empty-view_example = run_empty-view history node_b

-- An alive peer, half the time to live ago.
abbrev late_peer : DiscoveredPeer ℤ
late_peer = record gone_peer { state = PeerState.alive }

abbrev one_late : Registry ℤ
one_late = record { peers = (node_b, late_peer) ∷ [] }

refresh_states-documented_example :
    view (refresh_states (pos 9000) (pos 7500) (pos 15000) one_late).0 node_b
    ≡ some (record late_peer { state = PeerState.stale })
unfolding Registry.get lookup same_text ◌-ℤ◌
refresh_states-documented_example =
    refresh_states-documented (pos 9000) (pos 7500) (pos 15000) one_late node_b late_peer refl refl
      refl (λ e. cc)

expired_flaps_example :
    view
      (refresh_all (pos 7500) (pos 15000) (pos 20000 ∷ pos 20500 ∷ pos 21000 ∷ []) one_gone)
      node_b
    ≡ some (record gone_peer { state = PeerState.stale })
unfolding Registry.get lookup same_text ◌-ℤ◌
expired_flaps_example =
    expired_flaps (pos 20000 ∷ pos 20500 ∷ pos 21000 ∷ []) (pos 7500) (pos 15000) one_gone node_b
      gone_peer refl refl refl ((refl, refl, refl), ((refl, refl, refl), ((refl, refl, refl), tt)))

-- The late peer a second after it was seen, behind one that becomes stale.
abbrev two_late : Registry ℤ
two_late = record {
  peers =
      (node_a, record late_peer { last_seen_at = pos 1 })
      ∷ (node_b, record late_peer { last_seen_at = pos 8000 })
      ∷ [];
}

available_peers_fresh_example :
    (older (pos 9000) (pos 7500) (record late_peer { last_seen_at = pos 8000 }) ≡ false)
    × (older (pos 9000) (pos 15000) (record late_peer { last_seen_at = pos 8000 }) ≡ false)
unfolding Registry.available_peers Registry.available_loop refresh_states refresh_loop refresh_peer
    same_state DiscoveredPeer.available PeerState.is_available ◌-ℤ◌
available_peers_fresh_example =
    available_peers_fresh (pos 9000) (pos 7500) (pos 15000) two_late 0
      (record late_peer { last_seen_at = pos 8000 }) refl refl refl

refresh_states_count_example :
    (refresh_states (pos 20000) (pos 7500) (pos 15000) one_gone).1
    ≡ state_changes one_gone.peers
        (refresh_states (pos 20000) (pos 7500) (pos 15000) one_gone).0.peers
refresh_states_count_example = refresh_states_count (pos 20000) (pos 7500) (pos 15000) one_gone

prune_expired_complete_example :
    ((Registry.prune_expired one_gone).1 ≡ length (Registry.expired_peers one_gone))
    × (Registry.expired_peers (Registry.prune_expired one_gone).0 ≡ [])
    × (Registry.size (Registry.prune_expired one_gone).0 + (Registry.prune_expired one_gone).1
        ≡ Registry.size one_gone)
prune_expired_complete_example = prune_expired_complete one_gone

-- Two nodes that announced themselves in the one order and in the other.
abbrev other_notice : Announcement ℤ
other_notice = record { node_id = node_a; host = codes "h"; port = 7000; timestamp = pos 10 }

abbrev either_way : List (Call ℤ ℤ)
either_way = Call.announces (pos 1000) notice ∷ Call.announces (pos 1000) other_notice ∷ []

abbrev other_way : List (Call ℤ ℤ)
other_way = Call.announces (pos 1000) other_notice ∷ Call.announces (pos 1000) notice ∷ []

ways-IsAlike :
    IsAlike (run either_way Registry.empty_registry) (run other_way Registry.empty_registry)
ways-IsAlike k =
    run_empty-view either_way k
    ∙ (ground (arith, same_text_iff node_a k, same_text_iff node_b k))
    ∙ sym (run_empty-view other_way k)

run-Agrees_example :
    Agrees
      (Bytes × Bytes × ℕ)
      ℤ
      (run history (run either_way Registry.empty_registry))
      (run history (run other_way Registry.empty_registry))
run-Agrees_example =
    run-Agrees history (run either_way Registry.empty_registry)
      (run other_way Registry.empty_registry) (run_empty-IsWellFormed either_way)
      (run_empty-IsWellFormed other_way) ways-IsAlike
