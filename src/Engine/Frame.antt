-- ===== src/Engine/Frame.antt =====
-- What the engine's sends leave alone: the context, the registry and the status.
use discovery.Base.{◌≡◌, ap, arith}
use discovery.External.Serializer.{Serializer}
use discovery.External.Time.{Timestamps, Durations}
use discovery.External.Transport.{PeerInfos}
use discovery.Types.Status.{Status}
use discovery.Core.Context.{Context}
use discovery.Core.Announcement.{Announcement}
use discovery.Core.Envelope.{Envelope}
use discovery.Peer.Registry.{Registry}
use discovery.Backend.{Backend}
use discovery.Engine
use discovery.Engine.{Engine}
use discovery.Engine.Traffic

module _ {W T P D : Type 0} where
  abbrev pub kept : Engine W T P D → Context W P D × Registry T × Status
  kept e = (e.context, e.registry, e.status)

  pub kept_status : (e e' : Engine W T P D) → kept e' ≡ kept e → e'.status ≡ e.status
  kept_status e e' h = ap (λ (x : Context W P D × Registry T × Status). x.2) h

module _ {W T P D : Type 0} ⦃ts : Timestamps T⦄ ⦃ds : Durations D⦄ ⦃infos : PeerInfos P⦄
    (s : Serializer) (b : Backend W T) where
  pub probe_now-kept : (e : Engine W T P D) → kept (Engine.probe_now b e).1 ≡ kept e
  unfolding Engine.probe_now Engine.make_probe_message Engine.make_correlation_id
      Engine.make_outbound_envelope Engine.client_send Engine.read_clock
  probe_now-kept e = ground arith

  pub announce_now-kept : (e : Engine W T P D) → kept (Traffic.announce_now s b e).1 ≡ kept e
  unfolding Traffic.announce_now Traffic.make_announce_message Engine.make_local_announcement
      Engine.make_correlation_id Engine.make_outbound_envelope Engine.client_send Engine.read_clock
  announce_now-kept e = ground arith

  pub maybe_announce-kept : (e : Engine W T P D) → kept (Traffic.maybe_announce s b e) ≡ kept e
  unfolding Traffic.maybe_announce Engine.read_clock
  maybe_announce-kept e = ground (arith, announce_now-kept (Engine.read_clock b e).1)

  pub handle_probe-kept :
      (m : Envelope T) (e : Engine W T P D) → kept (Traffic.handle_probe s b m e).1 ≡ kept e
  unfolding Traffic.handle_probe Traffic.make_reply_message Engine.make_local_announcement
      Engine.make_outbound_envelope Engine.client_send Engine.read_clock
  handle_probe-kept m e = ground arith

module _ {W T P D : Type 0} ⦃infos : PeerInfos P⦄ where
  pub integrate_with_transport-kept :
      (a : Announcement T) (e : Engine W T P D)
      → kept (Engine.integrate_with_transport a e) ≡ kept e
  unfolding Engine.integrate_with_transport
  integrate_with_transport-kept a e = ground arith

module _ {W T P D : Type 0} ⦃ts : Timestamps T⦄ ⦃ds : Durations D⦄ (b : Backend W T) where
  pub filing_time-kept :
      (a : Announcement T) (e : Engine W T P D) → kept (Engine.filing_time b a e).1 ≡ kept e
  unfolding Engine.filing_time Engine.read_clock
  filing_time-kept a e = ground arith
