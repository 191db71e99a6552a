-- ===== src/Peer/Registry/Unordered.antt =====
-- `std::unordered_map` leaves the order of its entries open: what the answers of the registry owe
-- to it.
use discovery.Base.{
  ℕ, ◌+◌, ◌≡◌, refl, sym, ap, ◌∙◌, Bool, true, not, ◌&&◌, List, [], ◌∷◌, map, Option, is_some,
  is_empty, length, arith, Bool-cases, inl, inr,
}
use mathlib.Core.List.{Perm}
use mathlib.Core.List.Perm
use discovery.Base.Text.{Bytes}
use discovery.Base.Dict.{Dict}
use discovery.Base.DictPerm.{same_answers-Perm, pick, pick-Perm, length-Perm}
use discovery.External.Time.{Timestamps, Durations}
use discovery.External.Transport.{PeerInfos}
use discovery.Types.PeerState.{PeerState, same_state}
use discovery.Peer.DiscoveredPeer
use discovery.Peer.DiscoveredPeer.{DiscoveredPeer}
use discovery.Peer.Registry
use discovery.Peer.Registry.{Registry}
use discovery.Peer.Registry.Calls
use discovery.Peer.Registry.Calls.{Call, run, answer}
use discovery.Peer.Registry.Loops.{prune_loop_listed}
use discovery.Peer.Registry.Invariant.{IsWellFormed, run-IsWellFormed}
use discovery.Peer.Registry.View.{view, run-view}

module _ {T : Type 0} where
  -- The same peer under every node id, whatever the order of the entries.
  abbrev pub IsAlike : Registry T → Registry T → Type 0
  IsAlike r r' = (k : Bytes) → Registry.get k r ≡ Registry.get k r'

  all_loop-pick : (m : Dict (DiscoveredPeer T)) → Registry.all_loop m ≡ pick (λ p. true) m
  unfolding Registry.all_loop
  all_loop-pick [] = refl
  all_loop-pick ((k, p) ∷ m) = ap (◌∷◌ p) (all_loop-pick m)

  available_loop-pick :
      (m : Dict (DiscoveredPeer T)) → Registry.available_loop m ≡ pick DiscoveredPeer.available m
  unfolding Registry.available_loop
  available_loop-pick [] = refl
  available_loop-pick ((k, p) ∷ m) = rw (available_loop-pick m) refl

  state_loop-pick :
      (wanted : PeerState) (m : Dict (DiscoveredPeer T))
      → Registry.state_loop wanted m ≡ pick (λ p. same_state p.state wanted) m
  unfolding Registry.state_loop
  state_loop-pick wanted [] = refl
  state_loop-pick wanted ((k, p) ∷ m) = rw (state_loop-pick wanted m) refl

  -- Calls on one entry find the same one.
  change_alike :
      (k : Bytes) (f : DiscoveredPeer T → DiscoveredPeer T) (r r' : Registry T)
      → IsAlike r r'
      → (Registry.change k f r).1 ≡ (Registry.change k f r').1
  unfolding Registry.change Registry.find Registry.get
  change_alike k f r r' same = ground (arith, same k)

  empty_alike : (m m' : Dict (DiscoveredPeer T)) → length m ≡ length m' → is_empty m ≡ is_empty m'
  empty_alike [] [] h = refl
  empty_alike [] (e ∷ m') h = absurd (omega (arith, h))
  empty_alike (e ∷ m) [] h = absurd (omega (arith, h))
  empty_alike (e ∷ m) (e' ∷ m') h = refl

  -- `prune_expired` counts the peers that it removes.
  prune_loop_listed-pick :
      (m : Dict (DiscoveredPeer T))
      → (Registry.prune_loop m 0).1 ≡ length (pick (λ p. same_state p.state PeerState.expired) m)
  prune_loop_listed-pick m =
      prune_loop_listed m 0
      ∙ ap (λ (l : List (DiscoveredPeer T)). length l + 0) (state_loop-pick PeerState.expired m)
      ∙ omega arith

module _ {T : Type 0} (P : Type 0) ⦃infos : PeerInfos P⦄ where
  abbrev connectable : DiscoveredPeer T → Bool
  connectable p = not (DiscoveredPeer.expired p) && infos.is_valid (DiscoveredPeer.to_peer_info p)

  transport_loop-pick :
      (m : Dict (DiscoveredPeer T))
      → Registry.transport_loop {P = P} m ≡ map DiscoveredPeer.to_peer_info (pick connectable m)
  unfolding Registry.transport_loop
  transport_loop-pick [] = refl
  transport_loop-pick ((k, p) ∷ m) =
      let rest = transport_loop-pick m in
      elim (Bool-cases (connectable p)) [ inl e ↦ rw (e, rest) refl | inr e ↦ rw (e, rest) refl ]

module _ {T D : Type 0} ⦃ts : Timestamps T⦄ ⦃ds : Durations D⦄ (now : T)
    (stale_after expire_after : D) where
  abbrev changing : DiscoveredPeer T → Bool
  changing p = (Registry.refresh_peer now stale_after expire_after p).1

  -- `refresh_states` counts the peers that it changes.
  refresh_loop_listed :
      (m : Dict (DiscoveredPeer T)) (n : ℕ)
      → (Registry.refresh_loop now stale_after expire_after m n).1 ≡ n + length (pick changing m)
  unfolding Registry.refresh_loop
  refresh_loop_listed [] n = omega arith
  refresh_loop_listed ((k, p) ∷ m) n =
      ground (arith, refresh_loop_listed m n, refresh_loop_listed m (n + 1))

module _ {T : Type 0} (P D : Type 0) ⦃ts : Timestamps T⦄ ⦃ds : Durations D⦄
    ⦃infos : PeerInfos P⦄ where
  -- Two registries give the same answers, where a list may come in another order.
  pub record Agrees (r r' : Registry T) : Type 0 where
    pub entry : IsAlike r r'
    pub known : (k : Bytes) → Registry.contains k r ≡ Registry.contains k r'
    pub size : Registry.size r ≡ Registry.size r'
    pub empty : Registry.empty r ≡ Registry.empty r'
    pub all : Perm (Registry.all r) (Registry.all r')
    pub available : Perm (Registry.available_peers r) (Registry.available_peers r')
    pub by_state :
        (wanted : PeerState) → Perm (Registry.by_state wanted r) (Registry.by_state wanted r')
    pub transport : Perm (Registry.transport_peers {P = P} r) (Registry.transport_peers {P = P} r')
    -- What any further call returns.
    pub answers : (c : Call T D) → answer c r ≡ answer c r'

module _ {T D : Type 0} ⦃ts : Timestamps T⦄ ⦃ds : Durations D⦄ where
  refresh_states_alike :
      (now : T) (stale_after expire_after : D) (r r' : Registry T)
      → Perm r.peers r'.peers
      → (Registry.refresh_states now stale_after expire_after r).1
        ≡ (Registry.refresh_states now stale_after expire_after r').1
  unfolding Registry.refresh_states
  refresh_states_alike now stale_after expire_after r r' order =
      let same =
        length-Perm (pick (changing now stale_after expire_after) r.peers)
          (pick (changing now stale_after expire_after) r'.peers)
          (pick-Perm (changing now stale_after expire_after) r.peers r'.peers order) in
      ground (
        arith,
        same,
        refresh_loop_listed now stale_after expire_after r.peers 0,
        refresh_loop_listed now stale_after expire_after r'.peers 0,
      )

  answer_alike :
      (r r' : Registry T)
      → IsAlike r r'
      → Perm r.peers r'.peers
      → (c : Call T D) → answer c r ≡ answer c r'
  unfolding answer Registry.erase Registry.set_state Registry.touch_at Registry.prune_expired
      Registry.mark_discovered Registry.mark_alive Registry.mark_stale Registry.mark_expired
      Registry.touch Registry.mark_error Registry.get
  answer_alike r r' same order (Call.upserts p) = refl
  answer_alike r r' same order (Call.announces now a) = refl
  answer_alike r r' same order (Call.erases k) =
      ap (λ (o : Option (DiscoveredPeer T)). Calls.flag (is_some o)) (same k)
  answer_alike r r' same order (Call.sets_state now k state) =
      ground (
        arith,
        change_alike k (λ p. DiscoveredPeer.touch now (record p { state = state })) r r' same,
      )
  answer_alike r r' same order (Call.marks_discovered now k) =
      ap Calls.flag (change_alike k (DiscoveredPeer.mark_discovered now) r r' same)
  answer_alike r r' same order (Call.marks_alive now k) =
      ap Calls.flag (change_alike k (DiscoveredPeer.mark_alive now) r r' same)
  answer_alike r r' same order (Call.marks_stale now k) =
      ap Calls.flag (change_alike k (DiscoveredPeer.mark_stale now) r r' same)
  answer_alike r r' same order (Call.marks_expired now k) =
      ap Calls.flag (change_alike k (DiscoveredPeer.mark_expired now) r r' same)
  answer_alike r r' same order (Call.touches now k) =
      ap Calls.flag (change_alike k (DiscoveredPeer.touch now) r r' same)
  answer_alike r r' same order (Call.touches_at timestamp k) =
      ground (arith, change_alike k (λ p. record p { last_seen_at = timestamp }) r r' same)
  answer_alike r r' same order (Call.marks_error now k) =
      ap Calls.flag (change_alike k (DiscoveredPeer.mark_error now) r r' same)
  answer_alike r r' same order (Call.refreshes now stale_after expire_after) =
      ap Calls.count (refresh_states_alike now stale_after expire_after r r' order)
  answer_alike r r' same order Call.prunes =
      let expired : DiscoveredPeer T → Bool = λ p. same_state p.state PeerState.expired in
      ap Calls.count (
        prune_loop_listed-pick r.peers
        ∙ length-Perm (pick expired r.peers) (pick expired r'.peers)
            (pick-Perm expired r.peers r'.peers order)
        ∙ sym (prune_loop_listed-pick r'.peers))
  answer_alike r r' same order Call.clears = refl

module _ {T P D : Type 0} ⦃ts : Timestamps T⦄ ⦃ds : Durations D⦄ ⦃infos : PeerInfos P⦄ where
  alike-Agrees :
      (r r' : Registry T) → IsWellFormed r → IsWellFormed r' → IsAlike r r' → Agrees P D r r'
  unfolding Registry.get Registry.size Registry.all Registry.available_peers Registry.by_state
      Registry.contains Registry.empty Registry.transport_peers
  alike-Agrees r r' w w' same =
      let order : Perm r.peers r'.peers =
        same_answers-Perm r.peers r'.peers w.distinct w'.distinct same in
      let sizes = length-Perm r.peers r'.peers order in
      record {
        entry = same;
        known = λ k. ap is_some (same k);
        size = sizes;
        empty = empty_alike r.peers r'.peers sizes;
        all = rw all_loop-pick (pick-Perm (λ p. true) r.peers r'.peers order);
        available =
            rw available_loop-pick (pick-Perm DiscoveredPeer.available r.peers r'.peers order);
        by_state = λ wanted.
            rw (state_loop-pick wanted)
              (pick-Perm (λ p. same_state p.state wanted) r.peers r'.peers order);
        transport =
            rw (transport_loop-pick P r.peers, transport_loop-pick P r'.peers)
              (Perm.map DiscoveredPeer.to_peer_info
                (pick-Perm (connectable P) r.peers r'.peers order));
        answers = answer_alike r r' same order;
      }

  -- Two well-formed registries with the same peer under every node id, in whatever order, agree
  -- after any history of calls: get, contains, size and empty answer the same; all,
  -- available_peers, by_state and transport_peers list the same, as often, in some order; and
  -- every further call that changes the registry returns the same flag or count.
  pub run-Agrees :
      (cs : List (Call T D)) (r r' : Registry T)
      → IsWellFormed r
      → IsWellFormed r'
      → IsAlike r r'
      → Agrees P D (run cs r) (run cs r')
  unfolding Registry.get
  run-Agrees cs r r' w w' same =
      alike-Agrees (run cs r) (run cs r') (run-IsWellFormed cs r w) (run-IsWellFormed cs r' w')
        (λ k.
          run-view cs r (view r) w (λ j. refl) k
          ∙ sym (run-view cs r' (view r) w' (λ j. sym (same j)) k))
