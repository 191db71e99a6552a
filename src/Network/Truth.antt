-- ===== src/Network/Truth.antt =====
-- No peer out of thin air: whatever the services of a network do, and in whatever order, each knows
-- only the others as they announce themselves.
use discovery.Base.{
  ℕ, zero, suc, ◌+◌, ◌<◌, length, ◌≡◌, ◌≢◌, refl, sym, subst, none, some, All, List, [], ◌∷◌,
  get_elem?, All-get_elem?, All-each, arith,
}
use discovery.Base.Text.{Bytes}
use discovery.Base.DictLaws.{lookup-Entries}
use discovery.External.Serializer.{Serializer, SerializerLaws, FitsU16, FitsI64}
use discovery.External.Time.{Timestamps, Durations, TimestampLaws}
use discovery.External.Transport.{PeerInfos}
use discovery.Core.Announcement.{Announcement}
use discovery.Core.Config.{Config}
use discovery.Core.Context
use discovery.Core.Context.{Context, ok}
use discovery.Encoding.Wire.{FitsMessage}
use discovery.Peer.DiscoveredPeer.{DiscoveredPeer}
use discovery.Peer.Published.{Peer}
use discovery.Peer.Registry
use discovery.Peer.Registry.Invariant.{Filed}
use discovery.Backend.{Backend}
use discovery.Engine
use discovery.Engine.{Engine}
use discovery.Engine.Conduct.{Switches, Upholds, Speaks, IsCalm}
use discovery.Engine.Truth.{Knows}
use discovery.Engine.Candour.{IsIntroduced, IsCandid, IsCandid-IsKept, introduced-Speaks}
use discovery.Engine.Invariant.{IsIdle, IsSteady, IsSteady-IsKept}
use discovery.Engine.Soundness.{empty-IsSound}
use discovery.Engine.Sessions.{both-IsKept}
use discovery.Service.{Service}
use discovery.Service.Serving.{
  Request, serve, within, IsServed, IsFit, IsFitRequest, serve_kept, serve-IsFit,
}
use discovery.Service.Histories.{within-IsSteady}
use discovery.Network.{
  Sharing, Seen, Node, Net, turn, take_turn, Step, Reach, here, next, serves, moves,
}

module _ {V T P D : Type 0} ⦃ds : Durations D⦄ where
  -- The node has this node id, and announces this host and port.
  abbrev pub IsOf : Node V T P D → Announcement T → Type 0
  IsOf n a =
      (config : Config D) × (Context.config_checked n.service.engine.context ≡ ok config)
      × (a.node_id ≡ config.node_id)
      × (a.host ≡ config.announce_host)
      × (a.port ≡ config.announce_port)

  -- It announces one of the nodes.
  abbrev pub IsOfSome : List (Node V T P D) → Announcement T → Type 0
  IsOfSome ns a = (i : ℕ) × (n : Node V T P D) × (get_elem? ns i ≡ some n) × IsOf n a

module _ {V T : Type 0} (I : V → Type 0) where
  -- A handler of found peers that upholds `I`.
  abbrev pub IsGentle : (Peer T → V → V) → Type 0
  IsGentle f = (p : Peer T) (v : V) → I v → I (f p v)

module _ {V T P D : Type 0} ⦃ts : Timestamps T⦄ ⦃ds : Durations D⦄ ⦃infos : PeerInfos P⦄
    (c : Serializer) (Met : Announcement T → Type 0) (I : V → Type 0) where
  -- A new node in good surroundings: its backend, its clock and its transport engine uphold `I`,
  -- what it polls is honest, and its own fields fit.
  pub record IsNew (n : Node V T P D) : Type 0 where
    pub switches : Switches n.backend I
    pub upholds : Upholds c Met FitsMessage n.backend I
    pub calm : IsCalm I Met n.service.engine.context
    pub small : (v : V) → I v → FitsI64 (ts.millis (n.backend.now v).0)
    pub fits :
        (config : Config D)
        → Context.config_checked n.service.engine.context ≡ ok config
        → (length config.node_id + length config.announce_host < 2147480000)
          × FitsU16 config.announce_port
    pub idle : IsIdle n.backend n.service.engine
    pub unset : n.service.found_handler ≡ none

module _ {V T P D : Type 0} ⦃ts : Timestamps T⦄ ⦃ds : Durations D⦄ ⦃infos : PeerInfos P⦄
    (c : Serializer) (Met : Announcement T → Type 0) (I : V → Type 0)
    (Fit : (Peer T → V → V) → Type 0) where
  -- What a node keeps, in whatever world the others leave.
  pub record IsTrue (n : Node V T P D) : Type 0 where
    pub switches : Switches n.backend I
    pub upholds : Upholds c Met FitsMessage n.backend I
    pub speaks : Speaks c Met FitsMessage n.backend I n.service.engine.context
    pub calm : IsCalm I Met n.service.engine.context
    pub knows : Knows c Met n.backend n.service.engine
    pub steady : IsSteady n.backend n.service.engine
    pub fit : IsFit Fit n.service.found_handler

  abbrev IsWell : Backend V T → Engine V T P D → Type 0
  IsWell b e = IsCandid c Met FitsMessage b I e × IsSteady b e

  within-IsWell :
      (b : Backend V T) (e : Engine V T P D) (v : V) → I v → IsWell b e → IsWell b (within e v)
  within-IsWell b e v well (candid, steady) = (
    record { speaks = candid.speaks; calm = candid.calm; well = well; knows = candid.knows },
    within-IsSteady c b e v steady,
  )

  IsWell-IsServed :
      (b : Backend V T)
      → ((f : Peer T → V → V) → Fit f → IsGentle I f)
      → Switches b I
      → Upholds c Met FitsMessage b I
      → IsServed {P = P} {D = D} c b Fit (IsWell b)
  IsWell-IsServed b gentle switches upholds = record {
    engine =
        both-IsKept c b (IsCandid-IsKept c Met FitsMessage b I switches upholds)
          (IsSteady-IsKept c b);
    clock = λ e h. within-IsWell b e _ (upholds.now e.world h.0.well) h;
    handler = λ f fit p e h. within-IsWell b e _ (gentle f fit p e.world h.0.well) h;
  }

  -- A node that is true serves a request in another world.
  pub serve-IsTrue :
      ((f : Peer T → V → V) → Fit f → IsGentle I f)
      → (n : Node V T P D) (r : Request V T) (v : V) → IsFitRequest Fit r
      → I v
      → IsTrue n
      → let s = serve c n.backend r (record n.service { engine = within n.service.engine v }) in
        I s.engine.world × IsTrue (record n { service = s })
  serve-IsTrue gentle n r v fit well h =
      let b : Backend V T = n.backend in
      let s : Service V T P D = record n.service { engine = within n.service.engine v } in
      let served : IsServed c b Fit (IsWell b) = IsWell-IsServed b gentle h.switches h.upholds in
      let before : IsWell b s.engine = (
        record { speaks = h.speaks; calm = h.calm; well = well; knows = h.knows },
        within-IsSteady c b n.service.engine v h.steady,
      ) in
      let (candid, steady) = serve_kept c b Fit (IsWell b) served r s fit h.fit before in
      (
        candid.well,
        record {
          switches = h.switches;
          upholds = h.upholds;
          speaks = candid.speaks;
          calm = candid.calm;
          knows = candid.knows;
          steady = steady;
          fit = serve-IsFit c b Fit (IsWell b) served r s fit h.fit;
        },
      )

module _ {V W T P D : Type 0} ⦃ts : Timestamps T⦄ ⦃ds : Durations D⦄ ⦃infos : PeerInfos P⦄
    (c : Serializer) (share : Sharing V W) (Met : Announcement T → Type 0) (I : W → Type 0)
    (Fit : (Peer T → V → V) → Type 0)
    (gentle : (f : Peer T → V → V) → Fit f → IsGentle (Seen share I) f) where
  turn-IsTrue :
      (i : ℕ) (r : Request V T) (w : W) (ns : List (Node V T P D))
      → IsFitRequest Fit r
      → I w
      → All (IsTrue c Met (Seen share I) Fit) ns
      → I (turn c share i r w ns).0
        × All (IsTrue c Met (Seen share I) Fit) (turn c share i r w ns).1
  unfolding turn
  turn-IsTrue i r w [] fit well h = (well, tt)
  turn-IsTrue zero r w (n ∷ ns) fit well h =
      let v : V = share.enter w n.service.engine.world in
      let entered : Seen share I v =
        subst I (sym (share.look-enter w n.service.engine.world)) well in
      let (well', true') = serve-IsTrue c Met (Seen share I) Fit gentle n r v fit entered h.0 in
      (well', (true', h.1))
  turn-IsTrue (suc i) r w (n ∷ ns) fit well h =
      let (well', trues) = turn-IsTrue i r w ns fit well h.1 in (well', (h.0, trues))

  -- Every node is true, and the common part is well.
  abbrev pub IsTruthfulNet : Net V W T P D → Type 0
  IsTruthfulNet net = I net.common × All (IsTrue c Met (Seen share I) Fit) net.nodes

  module _ {Moves : W → W → Type 0} (moving : (w w' : W) → Moves w w' → I w → I w') where
    Step-IsTruthfulNet :
        {net net' : Net V W T P D}
        → Step c share Fit Moves net net'
        → IsTruthfulNet net
        → IsTruthfulNet net'
    unfolding take_turn
    Step-IsTruthfulNet (serves i r net fit) (well, trues) =
        turn-IsTrue i r net.common net.nodes fit well trues
    Step-IsTruthfulNet (moves w net moved) (well, trues) = (moving net.common w moved well, trues)

    pub Reach-IsTruthfulNet :
        {start net : Net V W T P D}
        → IsTruthfulNet start
        → Reach c share Fit Moves start net
        → IsTruthfulNet net
    Reach-IsTruthfulNet h here = h
    Reach-IsTruthfulNet h (next before step) =
        Step-IsTruthfulNet step (Reach-IsTruthfulNet h before)

module _ {V T P D : Type 0} ⦃ts : Timestamps T⦄ ⦃ds : Durations D⦄ ⦃infos : PeerInfos P⦄
    {c : Serializer} (laws : SerializerLaws c) (times : TimestampLaws ts) (I : V → Type 0)
    (Fit : (Peer T → V → V) → Type 0) where
  new-IsTrue :
      (ns : List (Node V T P D)) (i : ℕ) (n : Node V T P D)
      → get_elem? ns i ≡ some n
      → IsNew c (IsOfSome ns) I n
      → IsTrue c (IsOfSome ns) I Fit n
  new-IsTrue ns i n at h =
      let introduced : IsIntroduced (IsOfSome ns) n.service.engine.context = record {
        met = λ config checked t. (i, n, at, (config, checked, refl, refl, refl));
        fits = h.fits;
      } in
      record {
        switches = h.switches;
        upholds = h.upholds;
        speaks =
            introduced-Speaks laws times (IsOfSome ns) n.backend h.small n.service.engine.context
              introduced;
        calm = h.calm;
        knows = rw h.idle.0 tt;
        steady = record {
          sound = empty-IsSound n.backend n.service.engine h.idle.0;
          idle = λ off. h.idle;
        };
        fit = rw h.unset tt;
      }

  pub true_known :
      (Met : Announcement T → Type 0) (n : Node V T P D) (k : Bytes) (p : DiscoveredPeer T)
      → IsTrue c Met I Fit n
      → Registry.get k n.service.engine.registry ≡ some p
      → (p.announcement.node_id ≡ k)
        × (k ≢ Engine.local_node_id n.backend n.service.engine)
        × Met p.announcement
  unfolding Registry.get
  true_known Met n k p h found =
      let peers = n.service.engine.registry.peers in
      (
        (lookup-Entries Filed k p peers h.steady.sound.filed.filed found).0,
        λ own. ground (arith, h.steady.sound.not_self, found, own),
        lookup-Entries (λ j q. Met q.announcement) k p peers h.knows found,
      )

module _ {V W T P D : Type 0} ⦃ts : Timestamps T⦄ ⦃ds : Durations D⦄ ⦃infos : PeerInfos P⦄
    {c : Serializer} (laws : SerializerLaws c) (times : TimestampLaws ts) (share : Sharing V W)
    (I : W → Type 0) {Fit : (Peer T → V → V) → Type 0}
    (gentle : (f : Peer T → V → V) → Fit f → IsGentle (Seen share I) f) where
  -- Every node of a network that is reached from new nodes is true.
  pub Reach-IsTrue :
      {Moves : W → W → Type 0}
      → ((w w' : W) → Moves w w' → I w → I w')
      → (start net : Net V W T P D) → I start.common
      → All (IsNew c (IsOfSome start.nodes) (Seen share I)) start.nodes
      → Reach c share Fit Moves start net
      → All (IsTrue c (IsOfSome start.nodes) (Seen share I) Fit) net.nodes
  Reach-IsTrue moving start net well fresh reached =
      let Met : Announcement T → Type 0 = IsOfSome start.nodes in
      let J : V → Type 0 = Seen share I in
      let trues : All (IsTrue c Met J Fit) start.nodes =
        All-each (IsTrue c Met J Fit) start.nodes (λ j m there.
          new-IsTrue laws times J Fit start.nodes j m there
            (All-get_elem? (IsNew c Met J) start.nodes j m fresh there)) in
      (Reach-IsTruthfulNet c share Met I Fit gentle moving (well, trues) reached).1
