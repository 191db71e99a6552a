-- ===== src/Engine/Conduct.antt =====
-- What is asked of an engine's surroundings: of its backend, of its clock, of what it says and of
-- the transport engine. `Met` says which announcements may be made.
use discovery.Base.{◌≡◌, ◌≢◌, some}
use discovery.External.Serializer.{Serializer}
use discovery.External.Time.{Timestamps, Durations}
use discovery.External.Transport.{PeerInfos, Transport}
use discovery.Types.MessageType
use discovery.Core.Announcement.{Announcement}
use discovery.Core.Context.{Context}
use discovery.Core.Envelope.{Envelope}
use discovery.Core.Message.{Message}
use discovery.Backend.{Backend}
use discovery.Engine
use discovery.Engine.{Engine}
use discovery.Engine.Traffic
use discovery.Engine.AnnouncementCodec.{decode_announcement}

module _ {W T : Type 0} (b : Backend W T) (I : W → Type 0) where
  -- Starting and stopping uphold `I`.
  pub record Switches : Type 0 where
    pub start : (w : W) → I w → I (b.start w).1
    pub stop : (w : W) → I w → I (b.stop w)

module _ (s : Serializer) {T : Type 0} ⦃ts : Timestamps T⦄ (Met : Announcement T → Type 0)
    (Fits : Message → Type 0) where
  -- The message fits, and whatever an announcement or a reply announces is met.
  pub record IsHonest (m : Message) : Type 0 where
    pub fits : Fits m
    pub tells :
        m.type ≢ MessageType.probe
        → (a : Announcement T) → decode_announcement s m.payload ≡ some a
        → Met a

  module _ {W : Type 0} (b : Backend W T) (I : W → Type 0) where
    -- Reading the clock, sending what is honest and polling uphold `I`, and what a poll brings is
    -- honest.
    pub record Upholds : Type 0 where
      pub now : (w : W) → I w → I (b.now w).1
      pub send : (e : Envelope T) (w : W) → IsHonest e.message → I w → I (b.send e w).1
      pub poll : (w : W) → I w → I (b.poll w).1
      pub hears : (w : W) (e : Envelope T) → I w → (b.poll w).0 ≡ some e → IsHonest e.message

    module _ {P D : Type 0} ⦃ds : Durations D⦄ ⦃infos : PeerInfos P⦄ where
      -- An engine with this context is honest: its probes, what it announces, and what it replies
      -- to an honest message.
      pub record Speaks (c : Context W P D) : Type 0 where
        pub probes :
            (e : Engine W T P D)
            → e.context ≡ c
            → I e.world
            → IsHonest (Engine.make_probe_message b e).0
        pub announces :
            (e : Engine W T P D)
            → e.context ≡ c
            → I e.world
            → IsHonest (Traffic.make_announce_message s b e).0
        pub replies :
            (m : Message) (e : Engine W T P D)
            → IsHonest m
            → e.context ≡ c
            → I e.world
            → IsHonest (Traffic.make_reply_message s b m.from_node_id m.correlation_id e).0

module _ {W T P D : Type 0} ⦃infos : PeerInfos P⦄ (I : W → Type 0)
    (Met : Announcement T → Type 0) where
  -- Connecting a peer that was met upholds `I`.
  abbrev pub IsCalm : Context W P D → Type 0
  IsCalm c =
      (t : Transport W P)
      → c.transport ≡ some t
      → (a : Announcement T) (w : W) → Met a
      → I w
      → I (t.connect_peer (infos.make a.node_id a.host a.port) w)

-- No restriction.
abbrev pub Anything : {A : Type 0} → A → Type 0
Anything a = Unit

module _ (s : Serializer) {T : Type 0} ⦃ts : Timestamps T⦄ where
  pub Anything-IsHonest : (m : Message) → IsHonest s (Anything {A = Announcement T}) Anything m
  Anything-IsHonest m = record { fits = tt; tells = λ other a read. tt }

  pub Anything-Speaks :
      {W P D : Type 0} ⦃ds : Durations D⦄ ⦃infos : PeerInfos P⦄ {b : Backend W T} {I : W → Type 0}
      (c : Context W P D)
      → Speaks s Anything Anything b I c
  Anything-Speaks c = record {
    probes = λ e same h. Anything-IsHonest (Engine.make_probe_message _ e).0;
    announces = λ e same h. Anything-IsHonest (Traffic.make_announce_message s _ e).0;
    replies = λ m e honest same h.
        Anything-IsHonest (Traffic.make_reply_message s _ m.from_node_id m.correlation_id e).0;
  }
