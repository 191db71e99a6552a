-- ===== src/Engine/Invariant.antt =====
-- What every session of an engine keeps: a well-formed registry without the engine's own node, and
-- an empty one while the engine does not run.
use discovery.Base.{◌≡◌, refl, ap, sym, subst, ◌∙◌, List, [], arith, false}
use discovery.External.Serializer.{Serializer}
use discovery.External.Time.{Timestamps, Durations}
use discovery.External.Transport.{PeerInfos}
use discovery.Types.Status
use discovery.Types.Status.{Status}
use discovery.Core.Context.{Context}
use discovery.Peer.Registry
use discovery.Peer.Registry.{Registry}
use discovery.Backend.{Backend}
use discovery.Engine
use discovery.Engine.{Engine}
use discovery.Engine.Traffic
use discovery.Engine.Frame.{kept_status, probe_now-kept, announce_now-kept}
use discovery.Engine.Fixed.{poll_once-fixed, start_context}
use discovery.Engine.Sessions.{Action, session, IsKept, session_kept}
use discovery.Engine.Soundness.{
  IsSound, same_registry-IsSound, IsSound-kept, empty-IsSound, poll_once-IsSound,
}

module _ {W T P D : Type 0} ⦃ts : Timestamps T⦄ ⦃ds : Durations D⦄ (b : Backend W T) where
  -- An engine that does not run knows nobody and has not announced itself.
  abbrev pub IsIdle : Engine W T P D → Type 0
  IsIdle e = (e.registry.peers ≡ []) × (e.last_announce_at ≡ ts.unset)

  pub record IsSteady (e : Engine W T P D) : Type 0 where
    pub sound : IsSound b e
    pub idle : Status.is_running e.status ≡ false → IsIdle e

  pub made-IsSteady : (c : Context W P D) (w : W) → IsSteady (Engine.make c w)
  unfolding Engine.make Registry.empty_registry
  made-IsSteady c w = record {
    sound = empty-IsSound b (Engine.make c w) refl;
    idle = λ off. (refl, refl);
  }

module _ {W T P D : Type 0} ⦃ts : Timestamps T⦄ ⦃ds : Durations D⦄ ⦃infos : PeerInfos P⦄
    (s : Serializer) (b : Backend W T) where
  -- A call that needs a running engine, keeps the status and is sound.
  running-IsSteady :
      (e e' : Engine W T P D)
      → (Status.is_running e.status ≡ false → e' ≡ e)
      → e'.status ≡ e.status
      → IsSound b e'
      → IsSteady b e
      → IsSteady b e'
  running-IsSteady e e' off same sound h = record {
    sound = sound;
    idle = λ stopped.
        let was : Status.is_running e.status ≡ false = rw (sym same) stopped in
        subst (IsIdle b) (sym (off was)) (h.idle was);
  }

  poll_once-IsSteady : (e : Engine W T P D) → IsSteady b e → IsSteady b (Traffic.poll_once s b e).1
  poll_once-IsSteady e h =
      running-IsSteady e (Traffic.poll_once s b e).1
        (λ off. unfold Traffic.poll_once Engine.is_running in ground arith)
        (ap (λ (x : Context W P D × Status). x.1) (poll_once-fixed s b e))
        (poll_once-IsSound s b e h.sound) h

  start_registry : (e : Engine W T P D) → (Engine.start b e).1.registry ≡ e.registry
  unfolding Engine.start
  start_registry e = ground arith

  start_idle :
      (e : Engine W T P D)
      → Status.is_running (Engine.start b e).1.status ≡ false
      → (Status.is_running e.status ≡ false)
        × ((Engine.start b e).1.last_announce_at ≡ e.last_announce_at)
  unfolding Engine.start Status.is_running
  start_idle e off = ground arith

  start-IsSteady : (e : Engine W T P D) → IsSteady b e → IsSteady b (Engine.start b e).1
  start-IsSteady e h = record {
    sound = same_registry-IsSound b e _ (start_context b e) (start_registry e) h.sound;
    idle = λ off.
        let (was, unset) = start_idle e off in
        let (nobody, never) = h.idle was in (rw (start_registry e) nobody, unset ∙ never);
  }

  stop-IsIdle : (e : Engine W T P D) → IsSteady b e → IsIdle b (Engine.stop b e)
  unfolding Engine.stop Status.is_running Registry.clear
  stop-IsIdle e h = ground (arith, h.idle)

  stop-IsSteady : (e : Engine W T P D) → IsSteady b e → IsSteady b (Engine.stop b e)
  stop-IsSteady e h = record {
    sound = empty-IsSound b (Engine.stop b e) (stop-IsIdle e h).0;
    idle = λ off. stop-IsIdle e h;
  }

  pub IsSteady-IsKept : IsKept {P = P} {D = D} s b (IsSteady b)
  IsSteady-IsKept = record {
    starting = start-IsSteady;
    stopping = stop-IsSteady;
    announcing = λ e h.
        running-IsSteady e _ (λ off. unfold Traffic.announce_now Engine.is_running in ground arith)
          (kept_status e (Traffic.announce_now s b e).1 (announce_now-kept s b e))
          (IsSound-kept b e _ (announce_now-kept s b e) h.sound) h;
    probing = λ e h.
        running-IsSteady e _ (λ off. unfold Engine.probe_now Engine.is_running in ground arith)
          (kept_status e (Engine.probe_now b e).1 (probe_now-kept s b e))
          (IsSound-kept b e _ (probe_now-kept s b e) h.sound) h;
    polling = poll_once-IsSteady;
  }

  -- After any session of a new engine, on any backend and with any context, the registry is well
  -- formed, the engine's own node id is not in it, and while the status is not running the
  -- registry is empty and no announcement is on record.
  pub session_made-IsSteady :
      (cs : List Action) (c : Context W P D) (w : W) → IsSteady b (session s b cs (Engine.make c w))
  session_made-IsSteady cs c w =
      session_kept s b IsSteady-IsKept cs (Engine.make c w) (made-IsSteady b c w)
