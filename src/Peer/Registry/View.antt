-- ===== src/Peer/Registry/View.antt =====
-- The registry as a partial function from node ids to peers, and what each call does to it.
use discovery.Base.{
  ◌+◌, ◌%◌, ◌≡◌, refl, ap, ◌∙◌, List, [], ◌∷◌, Option, none, some, arith, if◌then◌else◌, ◌>>=◌,
  Bool-cases, inl, inr,
}
use discovery.Base.Text.{Bytes, same_text, same_text_iff}
use discovery.Base.Dict.{
  lookup, Distinct, keep, lookup-insert, lookup-adjust, lookup-erase, lookup-map_values,
  lookup-keep_values,
}
use mathlib.Core.Option
use mathlib.Core.Path.{fun_ext}
use discovery.External.Time.{Timestamps, Durations}
use discovery.Types.PeerState
use discovery.Types.PeerState.{PeerState}
use discovery.Core.Announcement
use discovery.Core.Announcement.{Announcement}
use discovery.Peer.DiscoveredPeer
use discovery.Peer.DiscoveredPeer.{DiscoveredPeer}
use discovery.Peer.Registry
use discovery.Peer.Registry.{Registry}
use discovery.Peer.Registry.Loops.{not_expired, refreshed, prune_loop_entries, refresh_loop_entries}
use discovery.Peer.Registry.Calls.{Call, step, run}
use discovery.Peer.Registry.Invariant.{IsWellFormed, step-IsWellFormed}

abbrev pub View : Type 0 → Type 0
View T = Bytes → Option (DiscoveredPeer T)

module _ {T : Type 0} where
  abbrev pub view : Registry T → View T
  view r k = Registry.get k r

  -- The view with the entry of one key changed.
  abbrev pub at : Bytes → (Option (DiscoveredPeer T) → Option (DiscoveredPeer T)) → View T → View T
  at k f v j = if same_text k j then f (v j) else v j

  -- The known peer with another announcement, seen now; or a new peer without errors.
  abbrev pub announced : T → Announcement T → Option (DiscoveredPeer T) → DiscoveredPeer T
  announced now a none = record {
    announcement = a;
    state = PeerState.alive;
    last_seen_at = now;
    error_count = 0;
  }
  announced now a (some p) = record {
    announcement = a;
    state = PeerState.alive;
    last_seen_at = now;
    error_count = p.error_count;
  }

  abbrev pub marked : T → PeerState → DiscoveredPeer T → DiscoveredPeer T
  marked now target p = record {
    announcement = p.announcement;
    state = target;
    last_seen_at = now;
    error_count = p.error_count;
  }

  abbrev pub seen : T → DiscoveredPeer T → DiscoveredPeer T
  seen t p = record p { last_seen_at = t }

  -- The count wraps at 2^32.
  abbrev pub failed : T → DiscoveredPeer T → DiscoveredPeer T
  failed now p = record p { last_seen_at = now; error_count = (p.error_count + 1) % 4294967296 }

module _ {T D : Type 0} ⦃ts : Timestamps T⦄ ⦃ds : Durations D⦄ where
  -- What each call does to the view.
  abbrev pub effect : Call T D → View T → View T
  effect (Call.upserts p) v j =
      at p.announcement.node_id (λ old. if DiscoveredPeer.is_valid p then some p else old) v j
  effect (Call.announces now a) v j =
      at a.node_id (λ old. if Announcement.is_valid a then some (announced now a old) else old) v j
  effect (Call.erases k) v j = at k (λ old. none) v j
  effect (Call.sets_state now k target) v j =
      at k (λ old. if PeerState.is_valid target then Option.map (marked now target) old else old) v
        j
  effect (Call.marks_discovered now k) v j = at k (Option.map (marked now PeerState.discovered)) v j
  effect (Call.marks_alive now k) v j = at k (Option.map (marked now PeerState.alive)) v j
  effect (Call.marks_stale now k) v j = at k (Option.map (marked now PeerState.stale)) v j
  effect (Call.marks_expired now k) v j = at k (Option.map (marked now PeerState.expired)) v j
  effect (Call.touches now k) v j = at k (Option.map (seen now)) v j
  effect (Call.touches_at t k) v j =
      at k (λ old. if ts.is_valid t then Option.map (seen t) old else old) v j
  effect (Call.marks_error now k) v j = at k (Option.map (failed now)) v j
  effect (Call.refreshes now stale_after expire_after) v j =
      if ts.is_valid now then Option.map (refreshed now stale_after expire_after) (v j) else v j
  effect Call.prunes v j = v j >>= keep not_expired
  effect Call.clears v j = none

module _ {T : Type 0} where
  change-view :
      (k j : Bytes) (f : DiscoveredPeer T → DiscoveredPeer T) (r : Registry T)
      → view (Registry.change k f r).0 j ≡ at k (Option.map f) (view r) j
  unfolding Registry.change Registry.get
  change-view k j f r = ground (arith, same_text_iff k j, lookup-adjust k j f r.peers)

module _ {T : Type 0} ⦃ts : Timestamps T⦄ where
  upsert-view :
      (p : DiscoveredPeer T) (r : Registry T) (j : Bytes)
      → view (Registry.upsert p r) j
        ≡ at p.announcement.node_id
            (λ old. if DiscoveredPeer.is_valid p then some p else old)
            (view r)
            j
  unfolding Registry.upsert Registry.get
  upsert-view p r j = ground (arith, lookup-insert p.announcement.node_id j p r.peers)

  pub announce-view :
      (now : T) (a : Announcement T) (r : Registry T) (j : Bytes)
      → view (Registry.upsert_announcement now a r) j
        ≡ at a.node_id
            (λ old. if Announcement.is_valid a then some (announced now a old) else old)
            (view r)
            j
  unfolding Registry.upsert_announcement Registry.get DiscoveredPeer.update DiscoveredPeer.make
      DiscoveredPeer.mark_alive DiscoveredPeer.is_valid PeerState.is_valid
  announce-view now a r j = ground (
    arith,
    same_text_iff a.node_id j,
    lookup-adjust a.node_id j (DiscoveredPeer.update now a) r.peers,
    lookup-insert a.node_id j (DiscoveredPeer.mark_alive now (DiscoveredPeer.make now a)) r.peers,
  )

  touch_at-view :
      (t : T) (k : Bytes) (r : Registry T) (j : Bytes)
      → view (Registry.touch_at t k r).0 j
        ≡ at k (λ old. if ts.is_valid t then Option.map (seen t) old else old) (view r) j
  unfolding Registry.touch_at
  touch_at-view t k r j = ground (arith, change-view k j (seen t) r)

module _ {T : Type 0} where
  set_state-view :
      (now : T) (k : Bytes) (target : PeerState) (r : Registry T) (j : Bytes)
      → view (Registry.set_state now k target r).0 j
        ≡ at k
            (λ old. if PeerState.is_valid target then Option.map (marked now target) old else old)
            (view r)
            j
  unfolding Registry.set_state DiscoveredPeer.touch
  set_state-view now k target r j = ground (arith, change-view k j (marked now target) r)

  prune_expired-view :
      (r : Registry T) (j : Bytes)
      → Distinct r.peers
      → view (Registry.prune_expired r).0 j ≡ (view r j >>= keep not_expired)
  unfolding Registry.prune_expired Registry.get
  prune_expired-view r j d =
      rw (prune_loop_entries r.peers 0) (lookup-keep_values not_expired j r.peers d)

module _ {T D : Type 0} ⦃ts : Timestamps T⦄ ⦃ds : Durations D⦄ where
  pub refresh_states-view :
      (now : T) (stale_after expire_after : D) (r : Registry T) (j : Bytes)
      → view (Registry.refresh_states now stale_after expire_after r).0 j ≡ (
          if ts.is_valid now
          then Option.map (refreshed now stale_after expire_after) (view r j)
          else view r j)
  unfolding Registry.refresh_states Registry.get
  refresh_states-view now stale_after expire_after r j = elim (Bool-cases (ts.is_valid now)) [
    | inr e ↦ rw e
    | inl e ↦
        rw (e, refresh_loop_entries now stale_after expire_after r.peers 0)
          (lookup-map_values (refreshed now stale_after expire_after) j r.peers)
  ]

  step-view :
      (c : Call T D) (r : Registry T) (j : Bytes)
      → IsWellFormed r
      → view (step c r) j ≡ effect c (view r) j
  unfolding step Registry.mark_discovered Registry.mark_alive Registry.mark_stale
      Registry.mark_expired Registry.touch Registry.mark_error DiscoveredPeer.mark_discovered
      DiscoveredPeer.mark_alive DiscoveredPeer.mark_stale DiscoveredPeer.mark_expired
      DiscoveredPeer.mark_error DiscoveredPeer.touch
  step-view (Call.upserts p) r j w = upsert-view p r j
  step-view (Call.announces now a) r j w = announce-view now a r j
  step-view (Call.erases k) r j w = unfold Registry.erase Registry.get in lookup-erase k j r.peers
  step-view (Call.sets_state now k target) r j w = set_state-view now k target r j
  step-view (Call.marks_discovered now k) r j w =
      change-view k j (marked now PeerState.discovered) r
  step-view (Call.marks_alive now k) r j w = change-view k j (marked now PeerState.alive) r
  step-view (Call.marks_stale now k) r j w = change-view k j (marked now PeerState.stale) r
  step-view (Call.marks_expired now k) r j w = change-view k j (marked now PeerState.expired) r
  step-view (Call.touches now k) r j w = change-view k j (seen now) r
  step-view (Call.touches_at t k) r j w = touch_at-view t k r j
  step-view (Call.marks_error now k) r j w = change-view k j (failed now) r
  step-view (Call.refreshes now stale_after expire_after) r j w =
      refresh_states-view now stale_after expire_after r j
  step-view Call.prunes r j w = prune_expired-view r j w.distinct
  step-view Call.clears r j w = unfold Registry.clear Registry.get lookup in refl

  abbrev pub effects : List (Call T D) → View T → View T
  effects [] v = v
  effects (c ∷ cs) v = effects cs (effect c v)

  pub run-view :
      (cs : List (Call T D)) (r : Registry T) (v : View T)
      → IsWellFormed r
      → ((j : Bytes) → view r j ≡ v j)
      → (j : Bytes) → view (run cs r) j ≡ effects cs v j
  unfolding run
  run-view [] r v w e j = e j
  run-view (c ∷ cs) r v w e j =
      run-view cs (step c r) (effect c v) (step-IsWellFormed c r w)
        (λ i. step-view c r i w ∙ ap (λ (u : View T). effect c u i) (fun_ext e)) j

  -- After any history of calls from the empty registry on, `get` answers for every node id what
  -- the calls, read as changes of a partial function from node ids to peers, say.
  pub run_empty-view :
      (cs : List (Call T D)) (j : Bytes)
      → view (run cs Registry.empty_registry) j ≡ effects cs (λ k. none) j
  unfolding Registry.empty_registry Registry.get lookup
  run_empty-view cs j =
      run-view cs Registry.empty_registry (λ k. none) (record { distinct = tt; filed = tt })
        (λ i. refl) j
