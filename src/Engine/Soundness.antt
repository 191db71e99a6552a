-- ===== src/Engine/Soundness.antt =====
-- What the engine's calls keep of its registry: it stays well formed, and without the engine itself.
use discovery.Base.{
  ◌≡◌, refl, sym, ap, subst, [], Option, none, Option-cases, arith, false, Bool-cases, inl, inr,
}
use discovery.Base.Text.{same_text}
use discovery.Base.Dict.{lookup}
use discovery.External.Serializer.{Serializer}
use discovery.External.Time.{Timestamps, Durations}
use discovery.External.Transport.{PeerInfos}
use discovery.Base.Int.{halve}
use discovery.Types.Status.{Status}
use discovery.Core.Context
use discovery.Core.Context.{Context, Result-cases}
use discovery.Core.Announcement.{Announcement}
use discovery.Core.Envelope.{Envelope}
use discovery.Peer.Registry
use discovery.Peer.Registry.{Registry}
use discovery.Peer.Registry.Calls
use discovery.Peer.Registry.Calls.{Call}
use discovery.Peer.Registry.Invariant.{IsWellFormed, step-IsWellFormed}
use discovery.Peer.Registry.View.{announce-view, refresh_states-view}
use discovery.Backend.{Backend}
use discovery.Engine
use discovery.Engine.{Engine}
use discovery.Engine.Traffic
use discovery.Engine.AnnouncementCodec.{decode_announcement}
use discovery.Client.Server
use discovery.Engine.Frame.{
  kept, filing_time-kept, maybe_announce-kept, handle_probe-kept, integrate_with_transport-kept,
}

module _ {W T P D : Type 0} ⦃ts : Timestamps T⦄ ⦃ds : Durations D⦄ (b : Backend W T) where
  -- The registry is well formed, and the engine's own node is not in it.
  pub record IsSound (e : Engine W T P D) : Type 0 where
    pub filed : IsWellFormed e.registry
    pub not_self : Registry.get (Engine.local_node_id b e) e.registry ≡ none

  local_node_id_same :
      (e e' : Engine W T P D)
      → e'.context ≡ e.context
      → Engine.local_node_id b e' ≡ Engine.local_node_id b e
  unfolding Engine.local_node_id
  local_node_id_same e e' h = rw h refl

  pub same_registry-IsSound :
      (e e' : Engine W T P D)
      → e'.context ≡ e.context
      → e'.registry ≡ e.registry
      → IsSound e
      → IsSound e'
  same_registry-IsSound e e' c r h = record {
    filed = subst IsWellFormed (sym r) h.filed;
    not_self = rw (local_node_id_same e e' c, r) h.not_self;
  }

  pub IsSound-kept : (e e' : Engine W T P D) → kept e' ≡ kept e → IsSound e → IsSound e'
  IsSound-kept e e' k h =
      same_registry-IsSound e e' (ap (λ (x : Context W P D × Registry T × Status). x.0) k)
        (ap (λ (x : Context W P D × Registry T × Status). x.1) k) h

  pub empty-IsSound : (e : Engine W T P D) → e.registry.peers ≡ [] → IsSound e
  unfolding Registry.get lookup
  empty-IsSound e h = record {
    filed = record { distinct = rw h tt; filed = rw h tt };
    not_self = rw h refl;
  }

  registry-IsSound :
      (e : Engine W T P D) (r : Registry T) (w : W)
      → IsWellFormed r
      → Registry.get (Engine.local_node_id b e) r ≡ none
      → IsSound (record e { registry = r; world = w })
  registry-IsSound e r w filed absent = record {
    filed = filed;
    not_self = rw (local_node_id_same e (record e { registry = r; world = w }) refl) absent;
  }

  upsert-IsSound :
      (a : Announcement T) (e : Engine W T P D)
      → same_text a.node_id (Engine.local_node_id b e) ≡ false
      → IsSound e
      → IsSound (Engine.upsert_discovered_peer b a e)
  unfolding Engine.upsert_discovered_peer
  upsert-IsSound a e other h =
      let (now, e₁) = Engine.filing_time b a e in
      let h₁ : IsSound e₁ = IsSound-kept e e₁ (filing_time-kept b a e) h in
      let same : Engine.local_node_id b e₁ ≡ Engine.local_node_id b e =
        local_node_id_same e e₁
          (ap (λ (x : Context W P D × Registry T × Status). x.0) (filing_time-kept b a e)) in
      let other₁ : same_text a.node_id (Engine.local_node_id b e₁) ≡ false = rw same other in
      registry-IsSound e₁ (Registry.upsert_announcement now a e₁.registry) e₁.world
        (unfold Calls.step in step-IsWellFormed {D = D} (Call.announces now a) e₁.registry h₁.filed)
        (rw (announce-view now a e₁.registry (Engine.local_node_id b e₁), other₁) h₁.not_self)

  refresh-IsSound : (e : Engine W T P D) → IsSound e → IsSound (Engine.refresh_peer_states b e)
  unfolding Engine.refresh_peer_states Engine.read_clock
  refresh-IsSound e h = elim (Result-cases (Context.config_checked e.context)) [
    | inr (code, text, bad) ↦ rw (Engine.refresh_peer_states, bad) h
    | inl (config, good) ↦
        let (now, w) = b.now e.world in
        let half : D = ds.from_millis (halve (ds.millis config.peer_ttl)) in
        rw (Engine.refresh_peer_states, good)
          (registry-IsSound e (Registry.refresh_states now half config.peer_ttl e.registry).0 w
            (unfold Calls.step in
              step-IsWellFormed (Call.refreshes now half config.peer_ttl) e.registry h.filed)
            (rw
              (
                refresh_states-view now half config.peer_ttl e.registry (Engine.local_node_id b e),
                h.not_self,
              )
              (ground arith)))
  ]

module _ {W T P D : Type 0} ⦃ts : Timestamps T⦄ ⦃ds : Durations D⦄ ⦃infos : PeerInfos P⦄
    (s : Serializer) (b : Backend W T) where
  learn-IsSound :
      (a : Announcement T) (e : Engine W T P D)
      → same_text a.node_id (Engine.local_node_id b e) ≡ false
      → IsSound b e
      → IsSound b (Engine.integrate_with_transport a (Engine.upsert_discovered_peer b a e))
  learn-IsSound a e other h =
      let e' : Engine W T P D = Engine.upsert_discovered_peer b a e in
      IsSound-kept b e' (Engine.integrate_with_transport a e') (integrate_with_transport-kept a e')
        (upsert-IsSound b a e other h)

  handle_announce-IsSound :
      (m : Envelope T) (e : Engine W T P D)
      → IsSound b e
      → IsSound b (Traffic.handle_announce s b m e).1
  unfolding Traffic.handle_announce
  handle_announce-IsSound m e h =
      let payload : Option (Announcement T) = decode_announcement s m.message.payload in
      elim (Option-cases payload) [
        | inl none_read ↦ rw (Traffic.handle_announce, none_read) h
        | inr (a, read) ↦ elim (Bool-cases (same_text a.node_id (Engine.local_node_id b e))) [
          | inl own ↦ rw (Traffic.handle_announce, read, own) (ground arith)
          | inr other ↦
              rw (Traffic.handle_announce, read, other) (ground (arith, learn-IsSound a e other h))
        ]
      ]

  pub dispatch-IsSound :
      (m : Envelope T) (e : Engine W T P D) → IsSound b e → IsSound b (Traffic.dispatch s b m e).1
  unfolding Traffic.dispatch Traffic.handle_reply Traffic.handle_announce
  dispatch-IsSound m e h = ground (
    arith,
    handle_announce-IsSound m e h,
    IsSound-kept b e (Traffic.handle_probe s b m e).1 (handle_probe-kept s b m e) h,
  )

  pub poll_once-IsSound : (e : Engine W T P D) → IsSound b e → IsSound b (Traffic.poll_once s b e).1
  unfolding Traffic.poll_once
  poll_once-IsSound e h =
      let e₁ : Engine W T P D = Engine.refresh_peer_states b (Traffic.maybe_announce s b e) in
      let h₁ : IsSound b e₁ =
        refresh-IsSound b _ (IsSound-kept b e _ (maybe_announce-kept s b e) h) in
      let e₂ : Engine W T P D = record e₁ { world = (Server.poll b e₁.world).1 } in
      let h₂ : IsSound b e₂ = IsSound-kept b e₁ e₂ refl h₁ in
      elim (Option-cases (Server.poll b e₁.world).0) [
        | inl quiet ↦ rw (Traffic.poll_once, quiet) (ground (arith, h, h₂))
        | inr (m, heard) ↦
            rw (Traffic.poll_once, heard) (ground (arith, h, dispatch-IsSound m e₂ h₂))
      ]
