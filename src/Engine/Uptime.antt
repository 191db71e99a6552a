-- ===== src/Engine/Uptime.antt =====
-- Whether the backend runs is left alone by the engine's sends and polls.
use discovery.Base.{◌≡◌, ◌∙◌, refl, some, Bool}
use discovery.External.Serializer.{Serializer}
use discovery.External.Time.{Timestamps, Durations}
use discovery.External.Transport.{PeerInfos, Transport}
use discovery.Core.Context.{Context}
use discovery.Backend.{Backend}
use discovery.Backend.Contract.{BackendLaws}
use discovery.Engine
use discovery.Engine.{Engine}
use discovery.Engine.Traffic
use discovery.Engine.Fixed.{tended}
use discovery.Engine.Conduct.{Upholds, Anything, Anything-IsHonest, Anything-Speaks}
use discovery.Engine.Upheld.{probe_now_upheld, announce_now_upheld, tended_upheld, poll_once_upheld}

module _ {W T P D : Type 0} (b : Backend W T) where
  -- Connecting a peer neither starts nor stops the backend.
  abbrev pub IsDetached : Context W P D → Type 0
  IsDetached c =
      (t : Transport W P)
      → c.transport ≡ some t
      → (p : P) (w : W) → b.is_running (t.connect_peer p w) ≡ b.is_running w

module _ {W T : Type 0} ⦃ts : Timestamps T⦄ (s : Serializer) {b : Backend W T}
    (laws : BackendLaws b) where
  pub running-Upholds : (x : Bool) → Upholds s Anything Anything b (λ w. b.is_running w ≡ x)
  running-Upholds x = record {
    now = λ w h. laws.now_running w ∙ h;
    send = λ e w honest h. laws.send_running e w ∙ h;
    poll = λ w h. laws.poll_running w ∙ h;
    hears = λ w e h heard. Anything-IsHonest s e.message;
  }

module _ {W T P D : Type 0} ⦃ts : Timestamps T⦄ ⦃ds : Durations D⦄ ⦃infos : PeerInfos P⦄
    (s : Serializer) {b : Backend W T} (laws : BackendLaws b) where
  -- Whether the engine's backend runs.
  abbrev pub up : Engine W T P D → Bool
  up e = b.is_running e.world

  pub probe_now-up : (e : Engine W T P D) → up (Engine.probe_now b e).1 ≡ up e
  probe_now-up e =
      probe_now_upheld s (running-Upholds s laws (up e)) e (Anything-Speaks s e.context) refl

  pub announce_now-up : (e : Engine W T P D) → up (Traffic.announce_now s b e).1 ≡ up e
  announce_now-up e =
      announce_now_upheld s (running-Upholds s laws (up e)) e (Anything-Speaks s e.context) refl

  -- The engine as it polls its server.
  pub up-tended : (e : Engine W T P D) → up (tended s b e) ≡ up e
  up-tended e = tended_upheld s (running-Upholds s laws (up e)) e (Anything-Speaks s e.context) refl

  pub poll_once-up :
      (e : Engine W T P D) → IsDetached b e.context → up (Traffic.poll_once s b e).1 ≡ up e
  poll_once-up e free =
      poll_once_upheld s (running-Upholds s laws (up e)) e (Anything-Speaks s e.context)
        (λ t has a w met h. free t has (infos.make a.node_id a.host a.port) w ∙ h) refl
