-- ===== src/Engine/Traffic.antt =====
-- include/softadastra/discovery/engine/DiscoveryEngine.hpp: the announce and reply messages, what the
-- engine does with an inbound envelope, and its polling.
use discovery.Base.{ℕ, zero, suc, ◌+◌, none, some, Bool, true, false, not, ◌||◌, if◌then◌else◌}
use discovery.Base.Int.{◌-ℤ◌, leb_ℤ}
use discovery.Base.Text.{Bytes, codes, same_text}
use discovery.External.Serializer.{Serializer}
use discovery.External.Time.{Timestamps, Durations}
use discovery.External.Transport.{PeerInfos}
use discovery.Types.MessageType
use discovery.Core.Message
use discovery.Core.Message.{Message}
use discovery.Core.Announcement
use discovery.Core.Announcement.{Announcement}
use discovery.Core.Envelope
use discovery.Core.Envelope.{Envelope}
use discovery.Core.Context
use discovery.Core.Context.{Context, Result, ok, err}
use discovery.Backend.{Backend}
use discovery.Client.Server
use discovery.Engine.{
  Engine, is_running, read_clock, local_node_id, make_local_announcement, make_correlation_id,
  make_outbound_envelope, client_send, refresh_peer_states, upsert_discovered_peer,
  integrate_with_transport,
}
use discovery.Engine.AnnouncementCodec.{encode_announcement, decode_announcement}

module _ {W T P D : Type 0} ⦃ts : Timestamps T⦄ ⦃ds : Durations D⦄ ⦃infos : PeerInfos P⦄
    (s : Serializer) (b : Backend W T) where
  unfoldable pub make_announce_message : Engine W T P D → Message × Engine W T P D
  make_announce_message e =
      let (a, e₁) = make_local_announcement b e in
      let message = Message.announce (local_node_id b e) (encode_announcement s a) in
      let (id, e₂) = make_correlation_id b (codes "announce") e₁ in
      (record message { correlation_id = id }, e₂)

  unfoldable pub make_reply_message : Bytes → Bytes → Engine W T P D → Message × Engine W T P D
  make_reply_message to_node_id correlation_id e =
      let (a, e') = make_local_announcement b e in
      let message = Message.reply (local_node_id b e) (encode_announcement s a) in
      (record message { to_node_id = to_node_id; correlation_id = correlation_id }, e')

  unfoldable pub announce_now : Engine W T P D → Bool × Engine W T P D
  announce_now e =
      if not (is_running b e) then (false, e) else elim (Context.config_checked e.context) [
        | err _ _ ↦ (false, e)
        | ok config ↦
            let (message, e₁) = make_announce_message e in
            let (envelope, e₂) =
              make_outbound_envelope b message config.broadcast_host config.broadcast_port e₁ in
            let (sent, e₃) = client_send b envelope e₂ in
            let (t, e₄) = read_clock b e₃ in
            if sent then (true, record e₄ { last_announce_at = t }) else (false, e₃)
      ]

  unfoldable pub maybe_announce : Engine W T P D → Engine W T P D
  maybe_announce e = elim (Context.config_checked e.context) [
    | err _ _ ↦ e
    | ok config ↦
        let (t, e') = read_clock b e in
        if not (ts.is_valid e'.last_announce_at)
          || leb_ℤ (ds.millis config.announce_interval)
              (ts.millis t -ℤ ts.millis e'.last_announce_at)
        then (announce_now e').1
        else e'
  ]

  unfoldable pub handle_announce : Envelope T → Engine W T P D → Bool × Engine W T P D
  handle_announce envelope e = elim (decode_announcement s envelope.message.payload) [
    | none ↦ (false, e)
    | some a ↦
        if not (Announcement.is_valid a)
        then (false, e)
        else if same_text a.node_id (local_node_id b e)
        then (false, e)
        else (true, integrate_with_transport a (upsert_discovered_peer b a e))
  ]

  unfoldable pub handle_probe : Envelope T → Engine W T P D → Bool × Engine W T P D
  handle_probe envelope e =
      if not (Envelope.has_source envelope)
      then (false, e)
      else let (reply, e₁) =
          make_reply_message envelope.message.from_node_id envelope.message.correlation_id e in
        let (outbound, e₂) =
          make_outbound_envelope b reply envelope.from_host envelope.from_port e₁ in
        client_send b outbound e₂

  unfoldable pub handle_reply : Envelope T → Engine W T P D → Bool × Engine W T P D
  handle_reply envelope e = elim (decode_announcement s envelope.message.payload) [
    | none ↦ (false, e)
    | some a ↦
        if not (Announcement.is_valid a)
        then (false, e)
        else if same_text a.node_id (local_node_id b e)
        then (false, e)
        else (true, integrate_with_transport a (upsert_discovered_peer b a e))
  ]

  -- What `poll_once` does with an envelope that the server returned.
  unfoldable pub dispatch : Envelope T → Engine W T P D → Bool × Engine W T P D
  unfolding handle_announce handle_reply
  dispatch envelope e =
      if not (Message.is_valid envelope.message)
      then (false, e)
      else if same_text envelope.message.from_node_id (local_node_id b e)
      then (false, e)
      else elim envelope.message.type [
        | MessageType.announce ↦ handle_announce envelope e
        | MessageType.probe ↦ handle_probe envelope e
        | MessageType.reply ↦ handle_reply envelope e
        | _ ↦ (false, e)
      ]

  unfoldable pub poll_once : Engine W T P D → Bool × Engine W T P D
  poll_once e =
      if not (is_running b e)
      then (false, e)
      else let e₁ = refresh_peer_states b (maybe_announce e) in
        let (inbound, world) = Server.poll b e₁.world in
        let e₂ = record e₁ { world = world } in
        elim inbound [ none ↦ (false, e₂) | some envelope ↦ dispatch envelope e₂ ]

  unfoldable pub poll_loop : ℕ → ℕ → Engine W T P D → ℕ × Engine W T P D
  poll_loop zero processed e = (processed, e)
  poll_loop (suc rounds) processed e = elim (poll_once e).0 [
    | true ↦ poll_loop rounds (processed + 1) (poll_once e).1
    | false ↦ (processed, (poll_once e).1)
  ]

  unfoldable pub poll_many : ℕ → Engine W T P D → ℕ × Engine W T P D
  unfolding poll_loop
  poll_many max_messages e = poll_loop max_messages 0 e
