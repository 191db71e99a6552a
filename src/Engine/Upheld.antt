-- ===== src/Engine/Upheld.antt =====
-- What the backend's calls and the connecting of peers uphold, the engine's sends and polls uphold.
use discovery.Base.{ℕ, ◌≡◌, refl, sym, subst, ap, Option, some, Option-cases, inl, inr, arith}
use discovery.Base.Text.{Bytes, codes}
use discovery.External.Serializer.{Serializer}
use discovery.External.Time.{Timestamps, Durations}
use discovery.External.Transport.{PeerInfos}
use discovery.Types.Status.{Status}
use discovery.Core.Announcement.{Announcement}
use discovery.Core.Context
use discovery.Core.Context.{Context, Result-cases}
use discovery.Core.Envelope
use discovery.Core.Envelope.{Envelope}
use discovery.Core.Message.{Message}
use discovery.Types.MessageType.{probe-cases}
use discovery.Engine.Conduct.{Switches, IsHonest, Upholds, Speaks, IsCalm}
use discovery.Peer.Registry.{Registry}
use discovery.Backend.{Backend}
use discovery.Client
use discovery.Client.Server
use discovery.Engine
use discovery.Engine.{Engine}
use discovery.Engine.Frame.{filing_time-kept}
use discovery.Engine.Traffic
use discovery.Engine.AnnouncementCodec.{decode_announcement}
use discovery.Engine.Fixed.{tended, fixed-tended}

module _ {W T P D : Type 0} ⦃ts : Timestamps T⦄ ⦃ds : Durations D⦄ {b : Backend W T}
    {I : W → Type 0} (switches : Switches b I) where
  pub start_upheld : (e : Engine W T P D) → I e.world → I (Engine.start b e).1.world
  unfolding Engine.start Server.start
  start_upheld e h = ground (arith, h, switches.start e.world h)

  pub stop_upheld : (e : Engine W T P D) → I e.world → I (Engine.stop b e).world
  unfolding Engine.stop Server.stop
  stop_upheld e h = ground (arith, h, switches.stop e.world h)

module _ {W T P D : Type 0} ⦃ts : Timestamps T⦄ ⦃ds : Durations D⦄ {s : Serializer}
    {Met : Announcement T → Type 0} {Fits : Message → Type 0} {b : Backend W T} {I : W → Type 0}
    (upholds : Upholds s Met Fits b I) where
  read_clock_upheld : (e : Engine W T P D) → I e.world → I (Engine.read_clock b e).1.world
  unfolding Engine.read_clock
  read_clock_upheld e h = upholds.now e.world h

  filing_time_upheld :
      (a : Announcement T) (e : Engine W T P D) → I e.world → I (Engine.filing_time b a e).1.world
  unfolding Engine.filing_time
  filing_time_upheld a e h =
      let h₁ : I (Engine.read_clock b e).1.world = read_clock_upheld e h in
      ground (arith, h, h₁, read_clock_upheld (Engine.read_clock b e).1 h₁)

  client_send_upheld :
      (m : Envelope T) (e : Engine W T P D)
      → IsHonest s Met Fits m.message
      → I e.world
      → I (Engine.client_send b m e).1.world
  unfolding Engine.client_send Client.send Envelope.mark_attempt
  client_send_upheld m e honest h =
      let (t, w) = b.now e.world in
      ground (arith, h, upholds.send (Envelope.mark_attempt t m) w honest (upholds.now e.world h))

  make_correlation_id_upheld :
      (prefix : Bytes) (e : Engine W T P D)
      → I e.world
      → I (Engine.make_correlation_id b prefix e).1.world
  unfolding Engine.make_correlation_id
  make_correlation_id_upheld prefix e h = read_clock_upheld e h

  make_local_announcement_upheld :
      (e : Engine W T P D) → I e.world → I (Engine.make_local_announcement b e).1.world
  unfolding Engine.make_local_announcement
  make_local_announcement_upheld e h = ground (arith, h, read_clock_upheld e h)

  -- Making an envelope of a message and sending it.
  post_upheld :
      (m : Message) (host : Bytes) (port : ℕ) (e : Engine W T P D)
      → IsHonest s Met Fits m
      → I e.world
      → let (envelope, e₁) = Engine.make_outbound_envelope b m host port e in
        I (Engine.client_send b envelope e₁).1.world
  unfolding Engine.make_outbound_envelope Envelope.make_outbound Envelope.make
  post_upheld m host port e honest h = client_send_upheld _ _ honest (read_clock_upheld e h)

  refresh_upheld : (e : Engine W T P D) → I e.world → I (Engine.refresh_peer_states b e).world
  unfolding Engine.refresh_peer_states
  refresh_upheld e h = ground (arith, h, read_clock_upheld e h)

module _ {W T P D : Type 0} ⦃ts : Timestamps T⦄ ⦃ds : Durations D⦄ ⦃infos : PeerInfos P⦄
    (s : Serializer) {Met : Announcement T → Type 0} {Fits : Message → Type 0} {b : Backend W T}
    {I : W → Type 0} (upholds : Upholds s Met Fits b I) where
  pub probe_now_upheld :
      (e : Engine W T P D)
      → Speaks s Met Fits b I e.context
      → I e.world
      → I (Engine.probe_now b e).1.world
  unfolding Engine.probe_now Engine.make_probe_message
  probe_now_upheld e speaks h =
      let (message, e₁) = Engine.make_probe_message b e in
      let made : I e₁.world = make_correlation_id_upheld upholds (codes "probe") e h in
      elim (Result-cases (Context.config_checked e.context)) [
        | inl (config, good) ↦
            rw (Engine.probe_now, good)
              (ground (
                arith,
                h,
                post_upheld upholds message config.broadcast_host config.broadcast_port e₁
                    (speaks.probes e refl h) made,
              ))
        | inr (code, text, bad) ↦ rw (Engine.probe_now, bad) (ground (arith, h))
      ]

  pub make_announce_message_upheld :
      (e : Engine W T P D) → I e.world → I (Traffic.make_announce_message s b e).1.world
  unfolding Traffic.make_announce_message
  make_announce_message_upheld e h =
      make_correlation_id_upheld upholds (codes "announce") (Engine.make_local_announcement b e).1
        (make_local_announcement_upheld upholds e h)

  pub announce_now_upheld :
      (e : Engine W T P D)
      → Speaks s Met Fits b I e.context
      → I e.world
      → I (Traffic.announce_now s b e).1.world
  unfolding Traffic.announce_now
  announce_now_upheld e speaks h =
      let (message, e₁) = Traffic.make_announce_message s b e in
      let made : I e₁.world = make_announce_message_upheld e h in
      elim (Result-cases (Context.config_checked e.context)) [
        | inl (config, good) ↦
            let host : Bytes = config.broadcast_host in
            let port : ℕ = config.broadcast_port in
            let (envelope, e₂) = Engine.make_outbound_envelope b message host port e₁ in
            let posted : I (Engine.client_send b envelope e₂).1.world =
              post_upheld upholds message host port e₁ (speaks.announces e refl h) made in
            rw (Traffic.announce_now, good)
              (ground (
                arith,
                h,
                posted,
                read_clock_upheld upholds (Engine.client_send b envelope e₂).1 posted,
              ))
        | inr (code, text, bad) ↦ rw (Traffic.announce_now, bad) (ground (arith, h))
      ]

  maybe_announce_upheld :
      (e : Engine W T P D)
      → Speaks s Met Fits b I e.context
      → I e.world
      → I (Traffic.maybe_announce s b e).world
  unfolding Traffic.maybe_announce Engine.read_clock
  maybe_announce_upheld e speaks h =
      let h₁ : I (Engine.read_clock b e).1.world = read_clock_upheld upholds e h in
      ground (arith, h, h₁, announce_now_upheld (Engine.read_clock b e).1 speaks h₁)

  pub tended_upheld :
      (e : Engine W T P D) → Speaks s Met Fits b I e.context → I e.world → I (tended s b e).world
  tended_upheld e speaks h =
      refresh_upheld upholds (Traffic.maybe_announce s b e) (maybe_announce_upheld e speaks h)

  handle_probe_upheld :
      (m : Envelope T) (e : Engine W T P D)
      → IsHonest s Met Fits m.message
      → Speaks s Met Fits b I e.context
      → I e.world
      → I (Traffic.handle_probe s b m e).1.world
  unfolding Traffic.handle_probe Traffic.make_reply_message
  handle_probe_upheld m e honest speaks h =
      let (reply, e₁) =
        Traffic.make_reply_message s b m.message.from_node_id m.message.correlation_id e in
      let made : I e₁.world = make_local_announcement_upheld upholds e h in
      ground (
        arith,
        h,
        post_upheld upholds reply m.from_host m.from_port e₁
            (speaks.replies m.message e honest refl h) made,
      )

  integrate_upheld :
      (a : Announcement T) (e : Engine W T P D)
      → Met a
      → IsCalm I Met e.context
      → I e.world
      → I (Engine.integrate_with_transport a e).world
  unfolding Engine.integrate_with_transport
  integrate_upheld a e met calm h =
      elim (Result-cases (Context.transport_checked e.world e.context)) [
        | inl (t, good) ↦
            let has : e.context.transport ≡ some t =
              unfold Context.transport_checked in ground (arith, good) in
            rw (Engine.integrate_with_transport, good)
              (ground (arith, h, calm t has a e.world met h))
        | inr (code, text, bad) ↦ rw (Engine.integrate_with_transport, bad) (ground (arith, h))
      ]

  handle_announce_upheld :
      (m : Envelope T) (e : Engine W T P D)
      → ((a : Announcement T) → decode_announcement s m.message.payload ≡ some a → Met a)
      → IsCalm I Met e.context
      → I e.world
      → I (Traffic.handle_announce s b m e).1.world
  unfolding Traffic.handle_announce Engine.upsert_discovered_peer
  handle_announce_upheld m e meets calm h =
      let found : Option (Announcement T) = decode_announcement s m.message.payload in
      elim (Option-cases found) [
        | inl bad ↦ rw (Traffic.handle_announce, bad) h
        | inr (a, good) ↦
            let same : e.context ≡ (Engine.filing_time b a e).1.context =
              sym
                (ap (λ (x : Context W P D × Registry T × Status). x.0) (filing_time-kept b a e)) in
            let learned : I
                (Engine.integrate_with_transport a (Engine.upsert_discovered_peer b a e)).world =
              integrate_upheld a (Engine.upsert_discovered_peer b a e) (meets a good)
                (subst (IsCalm I Met) same calm) (filing_time_upheld upholds a e h) in
            rw (Traffic.handle_announce, good) (ground (arith, h, learned))
      ]

  dispatch_upheld :
      (m : Envelope T) (e : Engine W T P D)
      → IsHonest s Met Fits m.message
      → Speaks s Met Fits b I e.context
      → IsCalm I Met e.context
      → I e.world
      → I (Traffic.dispatch s b m e).1.world
  unfolding Traffic.dispatch Traffic.handle_reply Traffic.handle_announce
  dispatch_upheld m e honest speaks calm h = elim (probe-cases m.message.type) [
    | inl probing ↦
        rw (Traffic.dispatch, probing) (ground (arith, h, handle_probe_upheld m e honest speaks h))
    | inr other ↦ ground (arith, h, other, handle_announce_upheld m e (honest.tells other) calm h)
  ]

  pub poll_once_upheld :
      (e : Engine W T P D)
      → Speaks s Met Fits b I e.context
      → IsCalm I Met e.context
      → I e.world
      → I (Traffic.poll_once s b e).1.world
  unfolding Traffic.poll_once Server.poll
  poll_once_upheld e speaks calm h =
      let e₂ : Engine W T P D = tended s b e in
      let e₃ : Engine W T P D = record e₂ { world = (b.poll e₂.world).1 } in
      let tidied : I e₂.world = tended_upheld e speaks h in
      let polled : I e₃.world = upholds.poll e₂.world tidied in
      elim (Option-cases (b.poll e₂.world).0) [
        | inl quiet ↦ rw (Traffic.poll_once, Server.poll, quiet) (ground (arith, h, polled))
        | inr (m, heard) ↦
            let same : e.context ≡ e₂.context =
              sym (ap (λ (x : Context W P D × Status). x.0) (fixed-tended s b e)) in
            let done : I (Traffic.dispatch s b m e₃).1.world =
              dispatch_upheld m e₃ (upholds.hears e₂.world m tidied heard)
                (subst (Speaks s Met Fits b I) same speaks) (subst (IsCalm I Met) same calm)
                polled in
            rw (Traffic.poll_once, Server.poll, heard) (ground (arith, h, done))
      ]
