-- ===== src/Peer/Registry/Invariant.antt =====
-- Every history leaves a registry whose keys are distinct and whose entries are valid peers, each
-- under its own node id.
use discovery.Base.{
  ◌+◌, ◌%◌, ℕ, ◌≡◌, refl, List, [], ◌∷◌, true, arith, Option-cases, Bool-cases, inl, inr,
}
use discovery.Base.Text.{Bytes}
use discovery.Base.Dict.{lookup, Distinct}
use discovery.Base.DictLaws.{
  Entries, insert-Distinct, adjust-Distinct, erase-Distinct, map_values-Distinct,
  keep_values-Distinct, insert-Entries, adjust-Entries, erase-Entries, map_values-Entries,
  keep_values-Entries,
}
use discovery.External.Time.{Timestamps, Durations}
use discovery.Types.PeerState
use discovery.Types.PeerState.{PeerState}
use discovery.Core.Announcement
use discovery.Core.Announcement.{Announcement}
use discovery.Peer.DiscoveredPeer
use discovery.Peer.DiscoveredPeer.{DiscoveredPeer}
use discovery.Peer.Registry
use discovery.Peer.Registry.{Registry}
use discovery.Peer.Registry.Loops.{not_expired, refreshed, prune_loop_entries, refresh_loop_entries}
use discovery.Peer.Registry.Calls.{Call, step, run}

module _ {T : Type 0} ⦃ts : Timestamps T⦄ where
  -- A valid peer under its own node id.
  abbrev pub Filed : Bytes → DiscoveredPeer T → Type 0
  Filed k p = (p.announcement.node_id ≡ k) × (DiscoveredPeer.is_valid p ≡ true)

  pub record IsWellFormed (r : Registry T) : Type 0 where
    pub distinct : Distinct r.peers
    pub filed : Entries Filed r.peers

  change-IsWellFormed :
      (k : Bytes) (f : DiscoveredPeer T → DiscoveredPeer T) (r : Registry T)
      → ((p : DiscoveredPeer T) → Filed k p → Filed k (f p))
      → IsWellFormed r
      → IsWellFormed (Registry.change k f r).0
  unfolding Registry.change
  change-IsWellFormed k f r h w = elim (Option-cases (lookup k r.peers)) [
    | inl e ↦ rw (e, Registry.change) w
    | inr (p, e) ↦
        rw (e, Registry.change)
          (record {
            distinct = adjust-Distinct k f r.peers w.distinct;
            filed = adjust-Entries Filed k f r.peers h w.filed;
          })
  ]

  upsert-IsWellFormed :
      (p : DiscoveredPeer T) (r : Registry T) → IsWellFormed r → IsWellFormed (Registry.upsert p r)
  unfolding Registry.upsert
  upsert-IsWellFormed p r w = elim (Bool-cases (DiscoveredPeer.is_valid p)) [
    | inl e ↦ rw e (record {
      distinct = insert-Distinct p.announcement.node_id p r.peers w.distinct;
      filed = insert-Entries Filed p.announcement.node_id p r.peers (refl, e) w.filed;
    })
    | inr e ↦ rw e w
  ]

  -- A state that the registry writes is one that a valid peer may have.
  state_written :
      (k : Bytes) (p : DiscoveredPeer T) (target : PeerState) (t : T)
      → PeerState.is_valid target ≡ true
      → Filed k p
      → Filed k (record p { state = target; last_seen_at = t })
  unfolding DiscoveredPeer.is_valid
  state_written k p target t h f = ground arith

  seen :
      (k : Bytes) (p : DiscoveredPeer T) (t : T) (n : ℕ)
      → Filed k p
      → Filed k (record p { last_seen_at = t; error_count = n })
  unfolding DiscoveredPeer.is_valid
  seen k p t n f = ground arith

  announced-Filed :
      (a : Announcement T) (p : DiscoveredPeer T) (now : T)
      → Announcement.is_valid a ≡ true
      → Filed a.node_id (DiscoveredPeer.update now a p)
  unfolding DiscoveredPeer.is_valid DiscoveredPeer.update PeerState.is_valid
  announced-Filed a p now h = ground arith

  announce-IsWellFormed :
      (now : T) (a : Announcement T) (r : Registry T)
      → IsWellFormed r
      → IsWellFormed (Registry.upsert_announcement now a r)
  unfolding Registry.upsert_announcement
  announce-IsWellFormed now a r w = elim (Bool-cases (Announcement.is_valid a)) [
    | inr e ↦ rw e w
    | inl e ↦ elim (Option-cases (lookup a.node_id r.peers)) [
      | inl new ↦ rw (e, new) (upsert-IsWellFormed _ r w)
      | inr (p, old) ↦
          rw (e, old)
            (record {
              distinct = adjust-Distinct a.node_id _ r.peers w.distinct;
              filed =
                  adjust-Entries Filed a.node_id _ r.peers (λ q f. announced-Filed a q now e)
                    w.filed;
            })
    ]
  ]

  set_state-IsWellFormed :
      (now : T) (k : Bytes) (target : PeerState) (r : Registry T)
      → IsWellFormed r
      → IsWellFormed (Registry.set_state now k target r).0
  unfolding Registry.set_state DiscoveredPeer.touch
  set_state-IsWellFormed now k target r w = elim (Bool-cases (PeerState.is_valid target)) [
    | inr e ↦ rw e w
    | inl e ↦ rw e (change-IsWellFormed k _ r (λ p. state_written k p target now e) w)
  ]

  touch_at-IsWellFormed :
      (t : T) (k : Bytes) (r : Registry T)
      → IsWellFormed r
      → IsWellFormed (Registry.touch_at t k r).0
  unfolding Registry.touch_at
  touch_at-IsWellFormed t k r w = elim (Bool-cases (ts.is_valid t)) [
    | inr e ↦ rw e w
    | inl e ↦ rw e (change-IsWellFormed k _ r (λ p. seen k p t p.error_count) w)
  ]

  prune_expired-IsWellFormed :
      (r : Registry T) → IsWellFormed r → IsWellFormed (Registry.prune_expired r).0
  unfolding Registry.prune_expired
  prune_expired-IsWellFormed r w = rw prune_loop_entries (record {
    distinct = keep_values-Distinct not_expired r.peers w.distinct;
    filed = keep_values-Entries Filed not_expired r.peers w.filed;
  })

module _ {T D : Type 0} ⦃ts : Timestamps T⦄ ⦃ds : Durations D⦄ where
  refreshed-Filed :
      (now : T) (stale_after expire_after : D) (k : Bytes) (p : DiscoveredPeer T)
      → Filed k p
      → Filed k (refreshed now stale_after expire_after p)
  unfolding Registry.refresh_peer DiscoveredPeer.is_valid PeerState.is_valid
  refreshed-Filed now stale_after expire_after k p f = ground arith

  refresh_states-IsWellFormed :
      (now : T) (stale_after expire_after : D) (r : Registry T)
      → IsWellFormed r
      → IsWellFormed (Registry.refresh_states now stale_after expire_after r).0
  unfolding Registry.refresh_states
  refresh_states-IsWellFormed now stale_after expire_after r w =
      elim (Bool-cases (ts.is_valid now)) [
        | inr e ↦ rw e w
        | inl e ↦
            rw (e, refresh_loop_entries now stale_after expire_after)
              (record {
                distinct = map_values-Distinct _ r.peers w.distinct;
                filed =
                    map_values-Entries Filed _ r.peers
                      (refreshed-Filed now stale_after expire_after) w.filed;
              })
      ]

  pub step-IsWellFormed : (c : Call T D) (r : Registry T) → IsWellFormed r → IsWellFormed (step c r)
  unfolding step Registry.mark_discovered Registry.mark_alive Registry.mark_stale
      Registry.mark_expired Registry.touch Registry.mark_error Registry.erase Registry.clear
      PeerState.is_valid DiscoveredPeer.mark_discovered DiscoveredPeer.mark_alive
      DiscoveredPeer.mark_stale DiscoveredPeer.mark_expired DiscoveredPeer.mark_error
      DiscoveredPeer.touch
  step-IsWellFormed (Call.upserts p) r w = upsert-IsWellFormed p r w
  step-IsWellFormed (Call.announces now a) r w = announce-IsWellFormed now a r w
  step-IsWellFormed (Call.erases k) r w = record {
    distinct = erase-Distinct k r.peers w.distinct;
    filed = erase-Entries Filed k r.peers w.filed;
  }
  step-IsWellFormed (Call.sets_state now k target) r w = set_state-IsWellFormed now k target r w
  step-IsWellFormed (Call.marks_discovered now k) r w =
      change-IsWellFormed k _ r (λ p. state_written k p PeerState.discovered now refl) w
  step-IsWellFormed (Call.marks_alive now k) r w =
      change-IsWellFormed k _ r (λ p. state_written k p PeerState.alive now refl) w
  step-IsWellFormed (Call.marks_stale now k) r w =
      change-IsWellFormed k _ r (λ p. state_written k p PeerState.stale now refl) w
  step-IsWellFormed (Call.marks_expired now k) r w =
      change-IsWellFormed k _ r (λ p. state_written k p PeerState.expired now refl) w
  step-IsWellFormed (Call.touches now k) r w =
      change-IsWellFormed k _ r (λ p. seen k p now p.error_count) w
  step-IsWellFormed (Call.touches_at t k) r w = touch_at-IsWellFormed t k r w
  step-IsWellFormed (Call.marks_error now k) r w =
      change-IsWellFormed k _ r (λ p. seen k p now ((p.error_count + 1) % 4294967296)) w
  step-IsWellFormed (Call.refreshes now stale_after expire_after) r w =
      refresh_states-IsWellFormed now stale_after expire_after r w
  step-IsWellFormed Call.prunes r w = prune_expired-IsWellFormed r w
  step-IsWellFormed Call.clears r w = record { distinct = tt; filed = tt }

  pub run-IsWellFormed :
      (cs : List (Call T D)) (r : Registry T) → IsWellFormed r → IsWellFormed (run cs r)
  unfolding run
  run-IsWellFormed [] r w = w
  run-IsWellFormed (c ∷ cs) r w = run-IsWellFormed cs (step c r) (step-IsWellFormed c r w)

  -- After any history of calls, from the empty registry on, no node id stands twice, every peer is
  -- filed under its own node id, and every peer is valid.
  pub run_empty-IsWellFormed :
      (cs : List (Call T D)) → IsWellFormed (run cs Registry.empty_registry)
  unfolding Registry.empty_registry
  run_empty-IsWellFormed cs =
      run-IsWellFormed cs Registry.empty_registry (record { distinct = tt; filed = tt })
