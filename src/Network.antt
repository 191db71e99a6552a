-- ===== src/Network.antt =====
-- Any number of services on one network: each has a world and a backend of its own, and shares a
-- part of its world, the clock and the network, with the others. In a step one service serves one
-- request, or the shared part moves on by itself, as when messages are lost, repeated or reordered
-- and when time passes.
pub mod Truth
pub mod Carried
pub mod Opening
pub mod OverUdp
pub mod Listed
pub mod Linux
pub mod Windows
use discovery.Base.{ℕ, zero, suc, ◌≡◌, none, some, List, [], ◌∷◌, get_elem?}
use discovery.External.Serializer.{Serializer}
use discovery.External.Time.{Timestamps, Durations}
use discovery.External.Transport.{PeerInfos}
use discovery.Peer.Published.{Peer}
use discovery.Backend.{Backend}
use discovery.Service.{Service}
use discovery.Service.Serving.{Request, serve, within, IsFitRequest}

-- How a node's world has a part in common with the others' worlds.
pub record Sharing (V W : Type 0) : Type 0 where
  pub look : V → W
  pub enter : W → V → V
  pub look-enter : (w : W) (v : V) → look (enter w v) ≡ w

module _ {V W : Type 0} (share : Sharing V W) where
  -- What is asked of the common part, as a node sees it.
  abbrev pub Seen : (W → Type 0) → V → Type 0
  Seen I v = I (share.look v)

pub record Node (V T P D : Type 0) : Type 0 where
  pub backend : Backend V T
  pub service : Service V T P D

pub record Net (V W T P D : Type 0) : Type 0 where
  pub common : W
  pub nodes : List (Node V T P D)

module _ {V W T P D : Type 0} (share : Sharing V W) where
  -- The service with the common part as the others left it.
  abbrev pub entering : W → Service V T P D → Service V T P D
  entering w s = record s { engine = within s.engine (share.enter w s.engine.world) }

module _ {V W T P D : Type 0} ⦃ts : Timestamps T⦄ ⦃ds : Durations D⦄ ⦃infos : PeerInfos P⦄
    (c : Serializer) (share : Sharing V W) where
  -- The request is served by the node at this index, if there is one.
  unfoldable pub turn : ℕ → Request V T → W → List (Node V T P D) → W × List (Node V T P D)
  turn i r w [] = (w, [])
  turn zero r w (n ∷ ns) =
      let s = serve c n.backend r (entering share w n.service) in
      (share.look s.engine.world, record n { service = s } ∷ ns)
  turn (suc i) r w (n ∷ ns) = let (w', ns') = turn i r w ns in (w', n ∷ ns')

  unfoldable pub take_turn : ℕ → Request V T → Net V W T P D → Net V W T P D
  unfolding turn
  take_turn i r net =
      let (w, ns) = turn i r net.common net.nodes in record { common = w; nodes = ns }

  module _ (Fit : (Peer T → V → V) → Type 0) (Moves : W → W → Type 0) where
    pub data Step : Net V W T P D → Net V W T P D → Type 0 where
      serves :
          (i : ℕ) (r : Request V T) (net : Net V W T P D)
          → IsFitRequest Fit r
          → Step net (take_turn i r net)
      moves :
          (w : W) (net : Net V W T P D) → Moves net.common w → Step net (record net { common = w })

    pub data Reach (start : Net V W T P D) : Net V W T P D → Type 0 where
      here : Reach start start
      next : {net net' : Net V W T P D} → Reach start net → Step net net' → Reach start net'
