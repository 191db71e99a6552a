-- ===== src/Engine/Fixed.antt =====
-- What polling leaves alone: the context and the status.
use discovery.Base.{◌≡◌, ap, ◌∙◌, arith, Option-cases, inl, inr}
use discovery.External.Serializer.{Serializer}
use discovery.External.Time.{Timestamps, Durations}
use discovery.External.Transport.{PeerInfos}
use discovery.Types.Status.{Status}
use discovery.Core.Context.{Context}
use discovery.Core.Envelope.{Envelope}
use discovery.Peer.Registry.{Registry}
use discovery.Backend.{Backend}
use discovery.Client.Server
use discovery.Engine
use discovery.Engine.{Engine}
use discovery.Engine.Traffic
use discovery.Engine.Frame.{kept, maybe_announce-kept, handle_probe-kept}

module _ {W T P D : Type 0} where
  abbrev pub fixed : Engine W T P D → Context W P D × Status
  fixed e = (e.context, e.status)

  pub kept-fixed : (e e' : Engine W T P D) → kept e' ≡ kept e → fixed e' ≡ fixed e
  kept-fixed e e' h = ap (λ (x : Context W P D × Registry T × Status). (x.0, x.2)) h

module _ {W T P D : Type 0} ⦃ts : Timestamps T⦄ ⦃ds : Durations D⦄ ⦃infos : PeerInfos P⦄
    (s : Serializer) (b : Backend W T) where
  handle_announce-fixed :
      (m : Envelope T) (e : Engine W T P D) → fixed (Traffic.handle_announce s b m e).1 ≡ fixed e
  unfolding Traffic.handle_announce Engine.upsert_discovered_peer Engine.filing_time
      Engine.read_clock Engine.integrate_with_transport
  handle_announce-fixed m e = ground arith

  pub dispatch-fixed :
      (m : Envelope T) (e : Engine W T P D) → fixed (Traffic.dispatch s b m e).1 ≡ fixed e
  unfolding Traffic.dispatch Traffic.handle_reply Traffic.handle_announce
  dispatch-fixed m e = ground (
    arith,
    handle_announce-fixed m e,
    kept-fixed e (Traffic.handle_probe s b m e).1 (handle_probe-kept s b m e),
  )

  refresh-fixed : (e : Engine W T P D) → fixed (Engine.refresh_peer_states b e) ≡ fixed e
  unfolding Engine.refresh_peer_states Engine.read_clock
  refresh-fixed e = ground arith

  -- The engine as it polls its server.
  abbrev pub tended : Engine W T P D → Engine W T P D
  tended e = Engine.refresh_peer_states b (Traffic.maybe_announce s b e)

  pub fixed-tended : (e : Engine W T P D) → fixed (tended e) ≡ fixed e
  fixed-tended e =
      refresh-fixed (Traffic.maybe_announce s b e)
      ∙ kept-fixed e (Traffic.maybe_announce s b e) (maybe_announce-kept s b e)

  pub poll_once-fixed : (e : Engine W T P D) → fixed (Traffic.poll_once s b e).1 ≡ fixed e
  unfolding Traffic.poll_once
  poll_once-fixed e =
      let e₂ : Engine W T P D = tended e in
      let e₃ : Engine W T P D = record e₂ { world = (Server.poll b e₂.world).1 } in
      elim (Option-cases (Server.poll b e₂.world).0) [
        | inl quiet ↦ rw (Traffic.poll_once, quiet) (ground (arith, fixed-tended e))
        | inr (m, heard) ↦
            rw (Traffic.poll_once, heard) (ground (arith, fixed-tended e, dispatch-fixed m e₃))
      ]

module _ {W T P D : Type 0} ⦃ts : Timestamps T⦄ ⦃ds : Durations D⦄ (b : Backend W T) where
  pub start_context : (e : Engine W T P D) → (Engine.start b e).1.context ≡ e.context
  unfolding Engine.start
  start_context e = ground arith

  pub stop_context : (e : Engine W T P D) → (Engine.stop b e).context ≡ e.context
  unfolding Engine.stop
  stop_context e = ground arith
