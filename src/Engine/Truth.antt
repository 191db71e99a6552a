-- ===== src/Engine/Truth.antt =====
-- An engine that hears only honest messages knows only what was met.
use discovery.Base.{
  ◌≡◌, ◌≢◌, sym, ap, subst, some, Option, Option-cases, Bool-cases, inl, inr, arith,
}
use discovery.Base.Text.{Bytes}
use discovery.Base.Dict.{lookup}
use discovery.Base.DictLaws.{Entries, insert-Entries, adjust-Entries, map_values-Entries}
use discovery.Base.Int.{halve}
use discovery.External.Serializer.{Serializer}
use discovery.External.Time.{Timestamps, Durations}
use discovery.External.Transport.{PeerInfos}
use discovery.Types.MessageType
use discovery.Types.MessageType.{probe-cases}
use discovery.Types.Status.{Status}
use discovery.Core.Announcement.{Announcement}
use discovery.Core.Context
use discovery.Core.Context.{Context, Result-cases}
use discovery.Core.Envelope.{Envelope}
use discovery.Peer.DiscoveredPeer
use discovery.Peer.DiscoveredPeer.{DiscoveredPeer}
use discovery.Peer.Registry
use discovery.Peer.Registry.{Registry}
use discovery.Peer.Registry.Loops.{refreshed, refresh_loop_entries}
use discovery.Backend.{Backend}
use discovery.Client.Server
use discovery.Engine
use discovery.Engine.{Engine}
use discovery.Engine.Traffic
use discovery.Engine.AnnouncementCodec.{decode_announcement}
use discovery.Engine.Frame.{
  kept, filing_time-kept, maybe_announce-kept, handle_probe-kept, integrate_with_transport-kept,
}
use discovery.Engine.Fixed.{tended}

module _ {T : Type 0} (Met : Announcement T → Type 0) where
  abbrev OfMet : Bytes → DiscoveredPeer T → Type 0
  OfMet k p = Met p.announcement

  -- Every announcement in the registry was met.
  abbrev pub IsTruthful : Registry T → Type 0
  IsTruthful r = Entries OfMet r.peers

module _ {T : Type 0} ⦃ts : Timestamps T⦄ (Met : Announcement T → Type 0) where
  upsert-IsTruthful :
      (now : T) (a : Announcement T) (r : Registry T)
      → Met a
      → IsTruthful Met r
      → IsTruthful Met (Registry.upsert_announcement now a r)
  unfolding Registry.upsert_announcement Registry.upsert Registry.find DiscoveredPeer.update
      DiscoveredPeer.mark_alive DiscoveredPeer.touch DiscoveredPeer.make
  upsert-IsTruthful now a r met h = elim (Option-cases (lookup a.node_id r.peers)) [
    | inl new ↦
        let made : DiscoveredPeer T = DiscoveredPeer.mark_alive now (DiscoveredPeer.make now a) in
        rw (Registry.upsert_announcement, Registry.upsert, new)
          (ground
            (arith, h, insert-Entries (OfMet Met) made.announcement.node_id made r.peers met h))
    | inr (p, old) ↦
        rw (Registry.upsert_announcement, old)
          (ground (
            arith,
            h,
            adjust-Entries (OfMet Met) a.node_id (DiscoveredPeer.update now a) r.peers
                (λ q before. met) h,
          ))
  ]

module _ {T D : Type 0} ⦃ts : Timestamps T⦄ ⦃ds : Durations D⦄ (Met : Announcement T → Type 0) where
  refreshed_met :
      (now : T) (stale_after expire_after : D) (k : Bytes) (p : DiscoveredPeer T)
      → Met p.announcement
      → Met (refreshed now stale_after expire_after p).announcement
  unfolding Registry.refresh_peer
  refreshed_met now stale_after expire_after k p h = ground (arith, h)

  refresh-IsTruthful :
      (now : T) (stale_after expire_after : D) (r : Registry T)
      → IsTruthful Met r
      → IsTruthful Met (Registry.refresh_states now stale_after expire_after r).0
  unfolding Registry.refresh_states
  refresh-IsTruthful now stale_after expire_after r h = elim (Bool-cases (ts.is_valid now)) [
    | inr e ↦ rw e h
    | inl e ↦
        rw (e, refresh_loop_entries now stale_after expire_after)
          (map_values-Entries (OfMet Met) _ r.peers (refreshed_met now stale_after expire_after) h)
  ]

module _ {W T P D : Type 0} ⦃ts : Timestamps T⦄ ⦃ds : Durations D⦄ ⦃infos : PeerInfos P⦄
    (s : Serializer) (Met : Announcement T → Type 0) (b : Backend W T) where
  abbrev pub Knows : Engine W T P D → Type 0
  Knows e = IsTruthful Met e.registry

  pub kept-Knows : (e e' : Engine W T P D) → kept e' ≡ kept e → Knows e → Knows e'
  kept-Knows e e' same h =
      subst (IsTruthful Met) (sym (ap (λ (x : Context W P D × Registry T × Status). x.1) same)) h

  learn-Knows :
      (a : Announcement T) (e : Engine W T P D)
      → Met a
      → Knows e
      → Knows (Engine.integrate_with_transport a (Engine.upsert_discovered_peer b a e))
  unfolding Engine.upsert_discovered_peer
  learn-Knows a e met h =
      let (t, e₁) = Engine.filing_time b a e in
      let e₂ : Engine W T P D = Engine.upsert_discovered_peer b a e in
      kept-Knows e₂ (Engine.integrate_with_transport a e₂) (integrate_with_transport-kept a e₂)
        (upsert-IsTruthful Met t a e₁.registry met (kept-Knows e e₁ (filing_time-kept b a e) h))

  handle_announce-Knows :
      (m : Envelope T) (e : Engine W T P D)
      → ((a : Announcement T) → decode_announcement s m.message.payload ≡ some a → Met a)
      → Knows e
      → Knows (Traffic.handle_announce s b m e).1
  unfolding Traffic.handle_announce
  handle_announce-Knows m e meets h =
      let found : Option (Announcement T) = decode_announcement s m.message.payload in
      elim (Option-cases found) [
        | inl bad ↦ rw (Traffic.handle_announce, bad) h
        | inr (a, read) ↦
            rw (Traffic.handle_announce, read) (ground (arith, h, learn-Knows a e (meets a read) h))
      ]

  dispatch-Knows :
      (m : Envelope T) (e : Engine W T P D)
      → (m.message.type ≢ MessageType.probe
          → (a : Announcement T) → decode_announcement s m.message.payload ≡ some a
          → Met a)
      → Knows e
      → Knows (Traffic.dispatch s b m e).1
  unfolding Traffic.dispatch Traffic.handle_reply Traffic.handle_announce
  dispatch-Knows m e honest h = elim (probe-cases m.message.type) [
    | inl probing ↦
        rw (Traffic.dispatch, probing)
          (ground
            (arith, h, kept-Knows e (Traffic.handle_probe s b m e).1 (handle_probe-kept s b m e) h))
    | inr other ↦ ground (arith, h, other, handle_announce-Knows m e (honest other) h)
  ]

  tended-Knows : (e : Engine W T P D) → Knows e → Knows (tended s b e)
  unfolding Engine.refresh_peer_states Engine.read_clock
  tended-Knows e h =
      let e₁ : Engine W T P D = Traffic.maybe_announce s b e in
      let h₁ : Knows e₁ = kept-Knows e e₁ (maybe_announce-kept s b e) h in
      elim (Result-cases (Context.config_checked e₁.context)) [
        | inr (code, text, bad) ↦ rw (Engine.refresh_peer_states, bad) h₁
        | inl (config, good) ↦
            let (now, w) = b.now e₁.world in
            rw (Engine.refresh_peer_states, good)
              (refresh-IsTruthful Met now (ds.from_millis (halve (ds.millis config.peer_ttl)))
                config.peer_ttl e₁.registry h₁)
      ]

  pub poll_once-Knows :
      (e : Engine W T P D)
      → ((m : Envelope T)
          → (b.poll (tended s b e).world).0 ≡ some m
          → m.message.type ≢ MessageType.probe
          → (a : Announcement T) → decode_announcement s m.message.payload ≡ some a
          → Met a)
      → Knows e
      → Knows (Traffic.poll_once s b e).1
  unfolding Traffic.poll_once Server.poll
  poll_once-Knows e hears h =
      let e₂ : Engine W T P D = tended s b e in
      let e₃ : Engine W T P D = record e₂ { world = (b.poll e₂.world).1 } in
      let h₃ : Knows e₃ = tended-Knows e h in
      elim (Option-cases (b.poll e₂.world).0) [
        | inl quiet ↦ rw (Traffic.poll_once, Server.poll, quiet) (ground (arith, h, h₃))
        | inr (m, heard) ↦
            rw (Traffic.poll_once, Server.poll, heard)
              (ground (arith, h, dispatch-Knows m e₃ (hears m heard) h₃))
      ]
