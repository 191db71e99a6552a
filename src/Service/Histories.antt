-- ===== src/Service/Histories.antt =====
-- What every history of a service's calls keeps.
use discovery.Base.{◌≡◌, refl, none, some, All, List, [], ◌∷◌, Option}
use discovery.External.Serializer.{Serializer}
use discovery.External.Time.{Timestamps, Durations}
use discovery.External.Transport.{PeerInfos, Transport}
use discovery.Core.Context
use discovery.Core.Context.{Context}
use discovery.Peer.Published.{Peer}
use discovery.Options
use discovery.Options.{Options}
use discovery.Backend.{Backend}
use discovery.Engine.{Engine}
use discovery.Engine.Invariant.{IsSteady, IsSteady-IsKept, made-IsSteady}
use discovery.Engine.Soundness.{same_registry-IsSound}
use discovery.Service
use discovery.Service.{Service}
use discovery.Service.Serving.{
  Request, history, within, IsServed, IsFit, IsFitRequest, history_kept,
}
use discovery.Service.Listing.{listing, peers-listing}

module _ {W T : Type 0} where
  -- Any handler.
  abbrev AnyHandler : (Peer T → W → W) → Type 0
  AnyHandler f = Unit

  any-IsFit : (handler : Option (Peer T → W → W)) → IsFit AnyHandler handler
  any-IsFit none = tt
  any-IsFit (some f) = tt

  any-IsFitRequest : (rs : List (Request W T)) → All (IsFitRequest AnyHandler) rs
  any-IsFitRequest [] = tt
  any-IsFitRequest (Request.starts ∷ rs) = (tt, any-IsFitRequest rs)
  any-IsFitRequest (Request.stops ∷ rs) = (tt, any-IsFitRequest rs)
  any-IsFitRequest (Request.announces ∷ rs) = (tt, any-IsFitRequest rs)
  any-IsFitRequest (Request.probes ∷ rs) = (tt, any-IsFitRequest rs)
  any-IsFitRequest (Request.polls ∷ rs) = (tt, any-IsFitRequest rs)
  any-IsFitRequest (Request.lists ∷ rs) = (tt, any-IsFitRequest rs)
  any-IsFitRequest (Request.polls_many n ∷ rs) = (tt, any-IsFitRequest rs)
  any-IsFitRequest (Request.sets_handler handler ∷ rs) = (any-IsFit handler, any-IsFitRequest rs)

module _ {W T P D : Type 0} ⦃ts : Timestamps T⦄ ⦃ds : Durations D⦄ ⦃infos : PeerInfos P⦄
    (c : Serializer) (b : Backend W T) where
  pub within-IsSteady : (e : Engine W T P D) (w : W) → IsSteady b e → IsSteady b (within e w)
  within-IsSteady e w h = record {
    sound = same_registry-IsSound b e (within e w) refl refl h.sound;
    idle = h.idle;
  }

  IsSteady-IsServed : IsServed {P = P} {D = D} c b AnyHandler (IsSteady b)
  IsSteady-IsServed = record {
    engine = IsSteady-IsKept c b;
    clock = λ e h. within-IsSteady e _ h;
    handler = λ f fit p e h. within-IsSteady e _ h;
  }

  -- After any history of calls of a new service, with any options, transport engine and backend,
  -- its engine has a well-formed registry without its own node, which is empty while the engine
  -- does not run; and the service lists exactly the available peers that were last seen at a valid
  -- time.
  pub history_made_peers :
      (rs : List (Request W T)) (options : Options D) (transport : Transport W P) (w : W)
      → let s = history c b rs (Service.make options transport w) in
        IsSteady b s.engine × ((Service.peers b s).0 ≡ listing s.engine.registry.peers)
  unfolding Service.make
  history_made_peers rs options transport w =
      let steady : IsSteady b (history c b rs (Service.make options transport w)).engine =
        history_kept c b AnyHandler (IsSteady b) IsSteady-IsServed rs
          (Service.make options transport w) (any-IsFitRequest rs) tt
          (made-IsSteady b (Context.make (Options.to_config options) transport) w) in
      (
        steady,
        peers-listing b (history c b rs (Service.make options transport w)) steady.sound.filed,
      )
