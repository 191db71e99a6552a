-- ===== src/Engine/Candour.antt =====
-- An engine among honest peers is honest itself and knows only what was met.
use discovery.Base.{
  ◌+◌, ◌<◌, length, ◌≡◌, refl, sym, ap, subst, ◌∙◌, some, none, true, false, Bool-cases, inl, inr,
  arith,
}
use mathlib.Core.Option.{some-injective}
use discovery.External.Serializer.{Serializer, SerializerLaws, FitsU16, FitsI64}
use discovery.External.Time.{Timestamps, Durations, TimestampLaws}
use discovery.External.Transport.{PeerInfos}
use discovery.Types.Status.{Status}
use discovery.Core.Announcement
use discovery.Core.Announcement.{Announcement}
use discovery.Core.Config.{Config}
use discovery.Core.Context
use discovery.Core.Context.{Context, Result-cases, ok}
use discovery.Core.Message
use discovery.Core.Message.{Message}
use discovery.Encoding.Wire.{FitsMessage}
use discovery.Engine.Sizes.{IsBrief, probe_fits, announce_fits, reply_fits}
use discovery.Backend.{Backend}
use discovery.Engine
use discovery.Engine.{Engine}
use discovery.Engine.Traffic
use discovery.Engine.AnnouncementCodec.{encode_announcement, decode_announcement}
use discovery.Engine.AnnouncementWire.{FitsAnnouncement, decode_announcement-encode_announcement}
use discovery.Engine.Frame.{kept, probe_now-kept, announce_now-kept}
use discovery.Peer.Registry
use discovery.Peer.Registry.{Registry}
use discovery.Engine.Fixed.{tended, poll_once-fixed, start_context, stop_context}
use discovery.Engine.Hearing.{own_announcement}
use discovery.Engine.Sessions.{IsKept}
use discovery.Engine.Conduct.{Switches, Upholds, Speaks, IsCalm}
use discovery.Engine.Upheld.{
  start_upheld, stop_upheld, probe_now_upheld, announce_now_upheld, tended_upheld, poll_once_upheld,
}
use discovery.Engine.Truth.{Knows, kept-Knows, poll_once-Knows}

module _ {W T P D : Type 0} ⦃ts : Timestamps T⦄ ⦃ds : Durations D⦄
    (Met : Announcement T → Type 0) where
  -- What a node with this context announces is met, and fits its fields.
  pub record IsIntroduced (c : Context W P D) : Type 0 where
    pub met :
        (config : Config D)
        → Context.config_checked c ≡ ok config
        → (t : T) → Met (own_announcement config t)
    pub fits :
        (config : Config D)
        → Context.config_checked c ≡ ok config
        → (length config.node_id + length config.announce_host < 2147480000)
          × FitsU16 config.announce_port

module _ {T : Type 0} ⦃ts : Timestamps T⦄ {s : Serializer} (laws : SerializerLaws s)
    (times : TimestampLaws ts) (Met : Announcement T → Type 0) where
  decode_unsaid :
      (a : Announcement T)
      → Announcement.is_valid a ≡ false
      → decode_announcement s {T = T} (encode_announcement s a) ≡ none
  unfolding encode_announcement decode_announcement
  decode_unsaid a bad = rw bad refl

  initial_unsaid : Announcement.is_valid (Announcement.initial {T = T}) ≡ false
  unfolding Announcement.is_valid Announcement.initial
  initial_unsaid = refl

  encoded_met :
      (a heard : Announcement T)
      → (Announcement.is_valid a ≡ true → FitsAnnouncement laws a × Met a)
      → decode_announcement s (encode_announcement s a) ≡ some heard
      → Met heard
  encoded_met a heard own read = elim (Bool-cases (Announcement.is_valid a)) [
    | inl good ↦
        let (fits, met) = own good in
        let said : decode_announcement s (encode_announcement s a) ≡ some a =
          decode_announcement-encode_announcement laws times a good fits in
        subst Met (some-injective _ _ (sym said ∙ read)) met
    | inr bad ↦ let unsaid = decode_unsaid a bad in ground (arith, read, unsaid)
  ]

module _ {W T P D : Type 0} ⦃ts : Timestamps T⦄ ⦃ds : Durations D⦄ ⦃infos : PeerInfos P⦄
    {s : Serializer} (laws : SerializerLaws s) (times : TimestampLaws ts)
    (Met : Announcement T → Type 0) (b : Backend W T) where
  -- What an engine says of itself.
  local_met :
      (c : Context W P D) (e : Engine W T P D) (heard : Announcement T)
      → IsIntroduced Met c
      → FitsI64 (ts.millis (b.now e.world).0)
      → e.context ≡ c
      → decode_announcement s (encode_announcement s (Engine.make_local_announcement b e).0)
        ≡ some heard
      → Met heard
  unfolding Engine.make_local_announcement Engine.local_node_id Engine.read_clock Announcement.make
  local_met c e heard introduced small same read =
      elim (Result-cases (Context.config_checked e.context)) [
        | inr (code, text, bad) ↦
            let nobody : (Engine.make_local_announcement b e).0 ≡ Announcement.initial =
              rw (Engine.make_local_announcement, bad) refl in
            encoded_met laws times Met Announcement.initial heard
              (λ valid.
                absurd (let no = initial_unsaid laws times Met in ground (arith, valid, no)))
              (rw nobody at read)
        | inl (config, good) ↦
            let checked : Context.config_checked c ≡ ok config = rw (sym same) good in
            let own : Announcement T = own_announcement config (b.now e.world).0 in
            let itself : (Engine.make_local_announcement b e).0 ≡ own = ground (arith, good) in
            let (brief, port) = introduced.fits config checked in
            encoded_met laws times Met own heard
              (λ valid. (
                record {
                  node_id = omega (arith, brief);
                  host = omega (arith, brief);
                  port = port;
                  timestamp = small;
                },
                introduced.met config checked (b.now e.world).0,
              ))
              (rw itself at read)
      ]

  introduced-IsBrief :
      (c : Context W P D) (e : Engine W T P D)
      → IsIntroduced Met c
      → e.context ≡ c
      → IsBrief laws b e
  unfolding Engine.make_local_announcement Engine.local_node_id Announcement.make
      Announcement.initial
  introduced-IsBrief c e introduced same = elim (Result-cases (Context.config_checked e.context)) [
    | inr (code, text, bad) ↦ ground (arith, bad)
    | inl (config, good) ↦
        let brief = (introduced.fits config (rw (sym same) good)).0 in ground (arith, good, brief)
  ]

  module _ {I : W → Type 0} (small : (w : W) → I w → FitsI64 (ts.millis (b.now w).0)) where
    pub introduced-Speaks :
        (c : Context W P D) → IsIntroduced Met c → Speaks s Met FitsMessage b I c
    unfolding Engine.make_probe_message Traffic.make_announce_message Traffic.make_reply_message
        Engine.make_correlation_id Engine.read_clock Message.probe Message.announce Message.reply
        Message.make
    introduced-Speaks c introduced = record {
      probes = λ e same h. record {
        fits = probe_fits laws b e (introduced-IsBrief c e introduced same);
        tells = λ other. absurd (other refl);
      };
      announces = λ e same h. record {
        fits = announce_fits laws b e (introduced-IsBrief c e introduced same);
        tells = λ other heard read. local_met c e heard introduced (small e.world h) same read;
      };
      replies = λ m e honest same h. record {
        fits =
            reply_fits laws b m.from_node_id m.correlation_id e honest.fits.from_node_id
              honest.fits.correlation_id (introduced-IsBrief c e introduced same);
        tells = λ other heard read. local_met c e heard introduced (small e.world h) same read;
      };
    }

module _ {W T P D : Type 0} ⦃ts : Timestamps T⦄ ⦃ds : Durations D⦄ ⦃infos : PeerInfos P⦄
    (s : Serializer) (Met : Announcement T → Type 0) (Fits : Message → Type 0) (b : Backend W T)
    (I : W → Type 0) where
  -- What the engine says is honest, its world is well, and it knows only what was met.
  pub record IsCandid (e : Engine W T P D) : Type 0 where
    pub speaks : Speaks s Met Fits b I e.context
    pub calm : IsCalm I Met e.context
    pub well : I e.world
    pub knows : Knows s Met b e

  moved-IsCandid :
      (e e' : Engine W T P D)
      → e'.context ≡ e.context
      → I e'.world
      → Knows s Met b e'
      → IsCandid e
      → IsCandid e'
  moved-IsCandid e e' same well knows h = record {
    speaks = subst (Speaks s Met Fits b I) (sym same) h.speaks;
    calm = subst (IsCalm I Met) (sym same) h.calm;
    well = well;
    knows = knows;
  }

  kept-IsCandid : (e e' : Engine W T P D) → kept e' ≡ kept e → I e'.world → IsCandid e → IsCandid e'
  kept-IsCandid e e' same well h =
      moved-IsCandid e e' (ap (λ (x : Context W P D × Registry T × Status). x.0) same) well
        (kept-Knows s Met b e e' same h.knows) h

  start-Knows : (e : Engine W T P D) → Knows s Met b e → Knows s Met b (Engine.start b e).1
  unfolding Engine.start
  start-Knows e h = ground (arith, h)

  stop-Knows : (e : Engine W T P D) → Knows s Met b e → Knows s Met b (Engine.stop b e)
  unfolding Engine.stop Registry.clear
  stop-Knows e h = ground (arith, h)

  pub IsCandid-IsKept : Switches b I → Upholds s Met Fits b I → IsKept s b IsCandid
  IsCandid-IsKept switches upholds = record {
    starting = λ e h.
        moved-IsCandid e _ (start_context b e) (start_upheld switches e h.well)
          (start-Knows e h.knows) h;
    stopping = λ e h.
        moved-IsCandid e _ (stop_context b e) (stop_upheld switches e h.well) (stop-Knows e h.knows)
          h;
    announcing = λ e h.
        kept-IsCandid e (Traffic.announce_now s b e).1 (announce_now-kept s b e)
          (announce_now_upheld s upholds e h.speaks h.well) h;
    probing = λ e h.
        kept-IsCandid e (Engine.probe_now b e).1 (probe_now-kept s b e)
          (probe_now_upheld s upholds e h.speaks h.well) h;
    polling = λ e h.
        moved-IsCandid e (Traffic.poll_once s b e).1
          (ap (λ (x : Context W P D × Status). x.0) (poll_once-fixed s b e))
          (poll_once_upheld s upholds e h.speaks h.calm h.well)
          (poll_once-Knows s Met b e
            (λ m heard.
              (upholds.hears (tended s b e).world m (tended_upheld s upholds e h.speaks h.well)
                heard).tells)
            h.knows)
          h;
  }
