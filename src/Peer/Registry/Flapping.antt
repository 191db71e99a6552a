-- ===== src/Peer/Registry/Flapping.antt =====
-- A peer that is `Expired` and stays overdue, over repeated calls of `refresh_states`.
use discovery.Base.{
  ℕ, zero, suc, ◌≡◌, refl, ap, ◌∙◌, List, [], ◌∷◌, some, Bool, true, false, not, length, All,
}
use discovery.Base.Text.{Bytes}
use discovery.External.Time.{Timestamps, Durations}
use discovery.Types.PeerState.{PeerState}
use discovery.Peer.DiscoveredPeer.{DiscoveredPeer}
use discovery.Peer.Registry.{Registry, refresh_states}
use discovery.Peer.Registry.Loops.{refreshed}
use discovery.Peer.Registry.View.{view}
use discovery.Peer.Registry.Refresh.{
  older, refreshed-expired, refreshed-stale, refresh_states_entry,
}

-- `flag` turned over `n` times.
abbrev turned : ℕ → Bool → Bool
turned zero flag = flag
turned (suc n) flag = turned n (not flag)

abbrev flap : Bool → PeerState
flap true = PeerState.expired
flap false = PeerState.stale

module _ {T : Type 0} where
  -- The peer in the one state or the other.
  abbrev flapped : Bool → DiscoveredPeer T → DiscoveredPeer T
  flapped flag p = record p { state = flap flag }

module _ {T D : Type 0} ⦃ts : Timestamps T⦄ ⦃ds : Durations D⦄ where
  -- One refresh after another, each at its own time.
  abbrev pub refresh_all : D → D → List T → Registry T → Registry T
  refresh_all stale_after expire_after [] r = r
  refresh_all stale_after expire_after (now ∷ nows) r =
      refresh_all stale_after expire_after nows (refresh_states now stale_after expire_after r).0

  -- A valid time at which the peer is older than both limits.
  abbrev IsOverdue : D → D → DiscoveredPeer T → T → Type 0
  IsOverdue stale_after expire_after p now =
      (ts.is_valid now ≡ true)
      × (older now stale_after p ≡ true)
      × (older now expire_after p ≡ true)

  refreshed-flapped :
      (now : T) (stale_after expire_after : D) (p : DiscoveredPeer T) (flag : Bool)
      → ts.is_valid p.last_seen_at ≡ true
      → IsOverdue stale_after expire_after p now
      → refreshed now stale_after expire_after (flapped flag p) ≡ flapped (not flag) p
  refreshed-flapped now stale_after expire_after p true seen (valid, old, old') =
      refreshed-expired now stale_after expire_after (flapped true p) seen refl old
  refreshed-flapped now stale_after expire_after p false seen (valid, old, old') =
      refreshed-stale now stale_after expire_after (flapped false p) seen refl old'

  refresh_all-flapped :
      (nows : List T) (stale_after expire_after : D) (r : Registry T) (k : Bytes)
      (p : DiscoveredPeer T) (flag : Bool)
      → view r k ≡ some (flapped flag p)
      → ts.is_valid p.last_seen_at ≡ true
      → All (IsOverdue stale_after expire_after p) nows
      → view (refresh_all stale_after expire_after nows r) k
        ≡ some (flapped (turned (length nows) flag) p)
  refresh_all-flapped [] stale_after expire_after r k p flag e seen old = e
  refresh_all-flapped (now ∷ nows) stale_after expire_after r k p flag e seen old =
      refresh_all-flapped nows stale_after expire_after
        (refresh_states now stale_after expire_after r).0 k p (not flag)
        (refresh_states_entry now stale_after expire_after r k (flapped flag p) old.0.0 e
          ∙ ap some (refreshed-flapped now stale_after expire_after p flag seen old.0))
        seen old.1

  -- A filed peer that is `Expired` and was last seen at a valid time: any number of refreshes, at
  -- any valid times at which the peer's age is at least both limits, leave it filed, `Expired` after
  -- an even number of them and `Stale` after an odd one, and nothing else of it changes.
  pub expired_flaps :
      (nows : List T) (stale_after expire_after : D) (r : Registry T) (k : Bytes)
      (p : DiscoveredPeer T)
      → view r k ≡ some p
      → ts.is_valid p.last_seen_at ≡ true
      → p.state ≡ PeerState.expired
      → All (IsOverdue stale_after expire_after p) nows
      → view (refresh_all stale_after expire_after nows r) k
        ≡ some (record p { state = flap (turned (length nows) true) })
  expired_flaps nows stale_after expire_after r k p e seen gone old =
      let same : p ≡ flapped true p = ap (λ (s : PeerState). record p { state = s }) gone in
      refresh_all-flapped nows stale_after expire_after r k p true (e ∙ ap some same) seen old
