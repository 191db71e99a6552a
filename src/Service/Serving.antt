-- ===== src/Service/Serving.antt =====
-- The service's calls as data, histories of them, and what every history keeps.
use discovery.Base.{
  arith, ℕ, subst, none, some, All, List, [], ◌∷◌, Option, Option-cases, Bool-cases, inl, inr,
  length, drop, leb,
}
use discovery.External.Serializer.{Serializer}
use discovery.External.Time.{Timestamps, Durations}
use discovery.External.Transport.{PeerInfos}
use discovery.Peer.DiscoveredPeer.{DiscoveredPeer}
use discovery.Peer.Published
use discovery.Peer.Published.{Peer}
use discovery.Peer.Registry
use discovery.Peer.Registry.{Registry}
use discovery.Options
use discovery.Options.{Options}
use discovery.Backend.{Backend}
use discovery.Engine
use discovery.Engine.{Engine}
use discovery.Engine.Sessions.{IsKept, poll_many_kept}
use discovery.Service
use discovery.Service.{Service}

-- The service's calls: those of its engine, a new handler, and the list of peers.
pub data Request (W T : Type 0) : Type 0 where
  starts stops announces probes polls lists : Request W T
  polls_many : ℕ → Request W T
  sets_handler : Option (Peer T → W → W) → Request W T

module _ {W T P D : Type 0} ⦃ts : Timestamps T⦄ ⦃ds : Durations D⦄ ⦃infos : PeerInfos P⦄
    (c : Serializer) (b : Backend W T) where
  unfoldable pub serve : Request W T → Service W T P D → Service W T P D
  serve starts s = (Service.start b s).1
  serve stops s = Service.stop b s
  serve announces s = (Service.announce_now c b s).1
  serve probes s = (Service.probe_now b s).1
  serve polls s = (Service.poll c b s).1
  serve lists s = (Service.peers b s).1
  serve (polls_many n) s = (Service.poll_many c b n s).1
  serve (sets_handler handler) s = Service.on_peer_found handler s

  unfoldable pub history : List (Request W T) → Service W T P D → Service W T P D
  history [] s = s
  history (r ∷ rs) s = history rs (serve r s)

module _ {W T : Type 0} (Fit : (Peer T → W → W) → Type 0) where
  -- The handler that is set is fit.
  abbrev pub IsFit : Option (Peer T → W → W) → Type 0
  IsFit none = Unit
  IsFit (some f) = Fit f

  -- A request sets no unfit handler.
  abbrev pub IsFitRequest : Request W T → Type 0
  IsFitRequest starts = Unit
  IsFitRequest stops = Unit
  IsFitRequest announces = Unit
  IsFitRequest probes = Unit
  IsFitRequest polls = Unit
  IsFitRequest lists = Unit
  IsFitRequest (polls_many n) = Unit
  IsFitRequest (sets_handler handler) = IsFit handler

module _ {W T P D : Type 0} where
  -- The same engine in another world.
  abbrev pub within : Engine W T P D → W → Engine W T P D
  within e w = record e { world = w }

module _ {W T P D : Type 0} ⦃ts : Timestamps T⦄ ⦃ds : Durations D⦄ ⦃infos : PeerInfos P⦄
    (c : Serializer) (b : Backend W T) (Fit : (Peer T → W → W) → Type 0)
    (Q : Engine W T P D → Type 0) where
  -- What the engine's calls, the clock and every fit handler keep.
  pub record IsServed : Type 0 where
    pub engine : IsKept c b Q
    pub clock : (e : Engine W T P D) → Q e → Q (within e (b.now e.world).1)
    pub handler :
        (f : Peer T → W → W)
        → Fit f
        → (p : Peer T) (e : Engine W T P D) → Q e
        → Q (within e (f p e.world))

  module _ (served : IsServed) where
    notify_loop_kept :
        (f : Peer T → W → W) (ps : List (DiscoveredPeer T)) (e : Engine W T P D)
        → Fit f
        → Q e
        → Q (Service.notify_loop b f ps e)
    unfolding Service.notify_loop Service.to_public_peer Engine.read_clock
    notify_loop_kept f [] e fit h = h
    notify_loop_kept f (p ∷ ps) e fit h =
        let (t, w) = b.now e.world in
        let seen : Peer T = Published.from_discovered_peer t p in
        let h₁ : Q (within e w) = served.clock e h in
        elim (Bool-cases (Published.is_valid seen)) [
          | inl valid ↦
              rw (Service.notify_loop, valid)
                (notify_loop_kept f ps (within e (f seen w)) fit
                  (served.handler f fit seen (within e w) h₁))
          | inr invalid ↦
              rw (Service.notify_loop, invalid) (notify_loop_kept f ps (within e w) fit h₁)
        ]

    notify_new_peers_kept :
        (s : Service W T P D)
        → IsFit Fit s.found_handler
        → Q s.engine
        → Q (Service.notify_new_peers b s).engine
    unfolding Service.notify_new_peers
    notify_new_peers_kept s fit h = elim (Option-cases s.found_handler) [
      | inl unset ↦ rw (Service.notify_new_peers, unset) h
      | inr (f, set) ↦
          let ps : List (DiscoveredPeer T) = Registry.available_peers s.engine.registry in
          elim (Bool-cases (leb (length ps) s.known_peer_count)) [
            | inl few ↦ rw (Service.notify_new_peers, set, few) h
            | inr more ↦
                rw (Service.notify_new_peers, set, more)
                  (notify_loop_kept f (drop s.known_peer_count ps) s.engine
                    (subst (IsFit Fit) set fit) h)
          ]
    ]

    peers_loop_kept :
        (ps : List (DiscoveredPeer T)) (e : Engine W T P D) → Q e → Q (Service.peers_loop b ps e).1
    unfolding Service.peers_loop Service.to_public_peer Engine.read_clock
    peers_loop_kept [] e h = h
    peers_loop_kept (p ∷ ps) e h =
        peers_loop_kept ps (within e (b.now e.world).1) (served.clock e h)

    pub serve_kept :
        (r : Request W T) (s : Service W T P D)
        → IsFitRequest Fit r
        → IsFit Fit s.found_handler
        → Q s.engine
        → Q (serve c b r s).engine
    unfolding serve Service.stop Service.announce_now Service.probe_now Service.poll
        Service.poll_many Service.peers Service.on_peer_found Service.start
    serve_kept starts s ok fit h = elim (Bool-cases (Options.is_valid s.options)) [
      | inl good ↦ rw (serve, Service.start, good) (served.engine.starting s.engine h)
      | inr bad ↦ rw (serve, Service.start, bad) h
    ]
    serve_kept stops s ok fit h = served.engine.stopping s.engine h
    serve_kept announces s ok fit h = served.engine.announcing s.engine h
    serve_kept probes s ok fit h = served.engine.probing s.engine h
    serve_kept polls s ok fit h = notify_new_peers_kept _ fit (served.engine.polling s.engine h)
    serve_kept lists s ok fit h =
        peers_loop_kept (Registry.available_peers s.engine.registry) s.engine h
    serve_kept (polls_many n) s ok fit h =
        notify_new_peers_kept _ fit (poll_many_kept c b served.engine n s.engine h)
    serve_kept (sets_handler handler) s ok fit h = h

    pub serve-IsFit :
        (r : Request W T) (s : Service W T P D)
        → IsFitRequest Fit r
        → IsFit Fit s.found_handler
        → IsFit Fit (serve c b r s).found_handler
    unfolding serve Service.stop Service.announce_now Service.probe_now Service.poll
        Service.poll_many Service.peers Service.on_peer_found Service.start Service.notify_new_peers
    serve-IsFit starts s ok fit = ground (arith, fit)
    serve-IsFit stops s ok fit = fit
    serve-IsFit announces s ok fit = fit
    serve-IsFit probes s ok fit = fit
    serve-IsFit polls s ok fit = ground (arith, fit)
    serve-IsFit lists s ok fit = fit
    serve-IsFit (polls_many n) s ok fit = ground (arith, fit)
    serve-IsFit (sets_handler handler) s ok fit = ok

    pub history_kept :
        (rs : List (Request W T)) (s : Service W T P D)
        → All (IsFitRequest Fit) rs
        → IsFit Fit s.found_handler
        → Q s.engine
        → Q (history c b rs s).engine
    unfolding history
    history_kept [] s oks fit h = h
    history_kept (r ∷ rs) s (ok, oks) fit h =
        history_kept rs (serve c b r s) oks (serve-IsFit r s ok fit) (serve_kept r s ok fit h)
