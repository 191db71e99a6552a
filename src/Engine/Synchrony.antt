-- ===== src/Engine/Synchrony.antt =====
-- An engine and its backend run and stop together.
use discovery.Base.{◌≡◌, sym, subst, ap, ◌∙◌, List, arith, false}
use discovery.External.Serializer.{Serializer}
use discovery.External.Time.{Timestamps, Durations}
use discovery.External.Transport.{PeerInfos}
use discovery.Types.Status
use discovery.Types.Status.{Status}
use discovery.Core.Context.{Context}
use discovery.Backend.{Backend}
use discovery.Backend.Contract.{BackendLaws}
use discovery.Client.Server
use discovery.Engine
use discovery.Engine.{Engine}
use discovery.Engine.Traffic
use discovery.Engine.Fixed.{fixed, kept-fixed, poll_once-fixed, start_context, stop_context}
use discovery.Engine.Frame.{probe_now-kept, announce_now-kept}
use discovery.Engine.Sessions.{Action, session, IsKept, session_kept}
use discovery.Engine.Uptime.{up, probe_now-up, announce_now-up, IsDetached, poll_once-up}

module _ {W T P D : Type 0} ⦃ts : Timestamps T⦄ ⦃ds : Durations D⦄ ⦃infos : PeerInfos P⦄
    (s : Serializer) {b : Backend W T} (laws : BackendLaws b) where
  -- The status says exactly whether the backend runs.
  pub record IsInStep (e : Engine W T P D) : Type 0 where
    pub calm : IsDetached b e.context
    pub together : Status.is_running e.status ≡ b.is_running e.world

  pub moved-IsInStep :
      (e e' : Engine W T P D)
      → fixed e' ≡ fixed e
      → up s laws e' ≡ up s laws e
      → IsInStep e
      → IsInStep e'
  moved-IsInStep e e' same kept h =
      let context : e.context ≡ e'.context = sym (ap (λ (x : Context W P D × Status). x.0) same) in
      let status : e'.status ≡ e.status = ap (λ (x : Context W P D × Status). x.1) same in
      record {
        calm = subst (IsDetached b) context h.calm;
        together = ap Status.is_running status ∙ (h.together ∙ sym kept);
      }

  start-IsInStep : (e : Engine W T P D) → IsInStep e → IsInStep (Engine.start b e).1
  unfolding Engine.start Server.start Status.is_running
  start-IsInStep e h = record {
    calm = subst (IsDetached b) (sym (start_context b e)) h.calm;
    together = ground (arith, h.together, laws.start_running e.world);
  }

  pub stop-IsInStep : (e : Engine W T P D) → IsInStep e → IsInStep (Engine.stop b e)
  unfolding Engine.stop Server.stop Status.is_running
  stop-IsInStep e h = record {
    calm = subst (IsDetached b) (sym (stop_context b e)) h.calm;
    together = ground (arith, h.together, laws.stop_running e.world);
  }

  poll_once-IsInStep : (e : Engine W T P D) → IsInStep e → IsInStep (Traffic.poll_once s b e).1
  poll_once-IsInStep e h =
      moved-IsInStep e _ (poll_once-fixed s b e) (poll_once-up s laws e h.calm) h

  pub IsInStep-IsKept : IsKept s b IsInStep
  IsInStep-IsKept = record {
    starting = start-IsInStep;
    stopping = stop-IsInStep;
    announcing = λ e h.
        moved-IsInStep e _ (kept-fixed e (Traffic.announce_now s b e).1 (announce_now-kept s b e))
          (announce_now-up s laws e) h;
    probing = λ e h.
        moved-IsInStep e _ (kept-fixed e (Engine.probe_now b e).1 (probe_now-kept s b e))
          (probe_now-up s laws e) h;
    polling = poll_once-IsInStep;
  }

  pub session-IsInStep :
      (cs : List Action) (e : Engine W T P D) → IsInStep e → IsInStep (session s b cs e)
  session-IsInStep cs e h = session_kept s b IsInStep-IsKept cs e h

  pub made-IsInStep :
      (c : Context W P D) (w : W)
      → b.is_running w ≡ false
      → IsDetached b c
      → IsInStep (Engine.make c w)
  unfolding Engine.make Status.is_running
  made-IsInStep c w off free = record { calm = free; together = sym off }

  -- On a backend that keeps the contract of backends and does not run at first, and with a
  -- transport engine whose connecting leaves it running or not: after any session of a new engine
  -- the status is running exactly when the backend runs, so that `is_running` is either of them.
  pub session_made-IsInStep :
      (cs : List Action) (c : Context W P D) (w : W)
      → b.is_running w ≡ false
      → IsDetached b c
      → let e = session s b cs (Engine.make c w) in
        (Status.is_running e.status ≡ b.is_running e.world)
        × (Engine.is_running b e ≡ b.is_running e.world)
  unfolding Engine.is_running
  session_made-IsInStep cs c w off calm =
      let e : Engine W T P D = session s b cs (Engine.make c w) in
      let h : IsInStep e = session-IsInStep cs (Engine.make c w) (made-IsInStep c w off calm) in
      (h.together, ground (arith, h.together))
