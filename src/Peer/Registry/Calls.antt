-- ===== src/Peer/Registry/Calls.antt =====
-- The calls that change a registry, as data, and a history of them.
use discovery.Base.{ℕ, List, [], ◌∷◌, Bool}
use discovery.Base.Text.{Bytes}
use discovery.External.Time.{Timestamps, Durations}
use discovery.Types.PeerState.{PeerState}
use discovery.Core.Announcement.{Announcement}
use discovery.Peer.DiscoveredPeer.{DiscoveredPeer}
use discovery.Peer.Registry
use discovery.Peer.Registry.{Registry}

pub data Call (T D : Type 0) : Type 0 where
  upserts : DiscoveredPeer T → Call T D
  announces : T → Announcement T → Call T D
  erases : Bytes → Call T D
  sets_state : T → Bytes → PeerState → Call T D
  marks_discovered marks_alive marks_stale marks_expired : T → Bytes → Call T D
  touches touches_at marks_error : T → Bytes → Call T D
  refreshes : T → D → D → Call T D
  prunes clears : Call T D

module _ {T D : Type 0} ⦃ts : Timestamps T⦄ ⦃ds : Durations D⦄ where
  unfoldable pub step : Call T D → Registry T → Registry T
  step (upserts p) r = Registry.upsert p r
  step (announces now a) r = Registry.upsert_announcement now a r
  step (erases k) r = (Registry.erase k r).0
  step (sets_state now k state) r = (Registry.set_state now k state r).0
  step (marks_discovered now k) r = (Registry.mark_discovered now k r).0
  step (marks_alive now k) r = (Registry.mark_alive now k r).0
  step (marks_stale now k) r = (Registry.mark_stale now k r).0
  step (marks_expired now k) r = (Registry.mark_expired now k r).0
  step (touches now k) r = (Registry.touch now k r).0
  step (touches_at timestamp k) r = (Registry.touch_at timestamp k r).0
  step (marks_error now k) r = (Registry.mark_error now k r).0
  step (refreshes now stale_after expire_after) r =
      (Registry.refresh_states now stale_after expire_after r).0
  step prunes r = (Registry.prune_expired r).0
  step clears r = Registry.clear r

  unfoldable pub run : List (Call T D) → Registry T → Registry T
  run [] r = r
  run (c ∷ cs) r = run cs (step c r)

-- What a call returns.
pub data Answer : Type 0 where
  nothing : Answer
  flag : Bool → Answer
  count : ℕ → Answer

module _ {T D : Type 0} ⦃ts : Timestamps T⦄ ⦃ds : Durations D⦄ where
  unfoldable pub answer : Call T D → Registry T → Answer
  answer (upserts p) r = nothing
  answer (announces now a) r = nothing
  answer (erases k) r = flag (Registry.erase k r).1
  answer (sets_state now k state) r = flag (Registry.set_state now k state r).1
  answer (marks_discovered now k) r = flag (Registry.mark_discovered now k r).1
  answer (marks_alive now k) r = flag (Registry.mark_alive now k r).1
  answer (marks_stale now k) r = flag (Registry.mark_stale now k r).1
  answer (marks_expired now k) r = flag (Registry.mark_expired now k r).1
  answer (touches now k) r = flag (Registry.touch now k r).1
  answer (touches_at timestamp k) r = flag (Registry.touch_at timestamp k r).1
  answer (marks_error now k) r = flag (Registry.mark_error now k r).1
  answer (refreshes now stale_after expire_after) r =
      count (Registry.refresh_states now stale_after expire_after r).1
  answer prunes r = count (Registry.prune_expired r).1
  answer clears r = nothing
