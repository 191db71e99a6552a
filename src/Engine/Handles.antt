-- ===== src/Engine/Handles.antt =====
-- An engine over a UDP backend leaks no handle.
use discovery.Base.{◌≡◌, sym, subst, ap, ◌∙◌, List, some, Bool, false, refl, arith}
use discovery.Base.Int.{ℤ}
use discovery.External.Serializer.{Serializer}
use discovery.External.Time.{Timestamps, Durations}
use discovery.External.Transport.{PeerInfos, Transport}
use discovery.Types.Status
use discovery.Types.Status.{Status}
use discovery.Core.Announcement.{Announcement}
use discovery.Core.Config.{Config}
use discovery.Core.Context.{Context}
use discovery.Platform.{UdpSockets, UdpSocketLaws}
use discovery.Backend.{Backend}
use discovery.Backend.Udp
use discovery.Backend.Udp.{Udp, udp_backend}
use discovery.Backend.Udp.Contract.{udp_backend-BackendLaws}
use discovery.Backend.Udp.Starting
use discovery.Backend.Udp.Starting.{IsTidy}
use discovery.Backend.Udp.Handles.{
  Use, apply, apply-IsTidy, moved-IsTidy, made-IsTidy, IsTidy-released,
}
use discovery.Engine
use discovery.Engine.{Engine}
use discovery.Engine.Traffic
use discovery.Engine.Frame.{probe_now-kept, announce_now-kept}
use discovery.Engine.Fixed.{fixed, kept-fixed, poll_once-fixed, start_context, stop_context}
use discovery.Engine.Sessions.{Action, session, IsKept, session_kept}
use discovery.Engine.Conduct.{
  Switches, Upholds, IsCalm, Anything, Anything-IsHonest, Anything-Speaks,
}
use discovery.Engine.Upheld.{
  start_upheld, stop_upheld, probe_now_upheld, announce_now_upheld, poll_once_upheld,
}
use discovery.Engine.Synchrony.{IsInStep, made-IsInStep, session-IsInStep, stop-IsInStep}

module _ {S W P D : Type 0} (is_open : ℤ → W → Bool) where
  -- Connecting a peer leaves the UDP backend and the open handles of UDP sockets alone; what else
  -- it opens is its own.
  abbrev pub IsApart : Context (Udp S W D) P D → Type 0
  IsApart c =
      (t : Transport (Udp S W D) P)
      → c.transport ≡ some t
      → (p : P) (b : Udp S W D)
      → (((t.connect_peer p b).socket ≡ b.socket) × ((t.connect_peer p b).running ≡ b.running))
        × ((j : ℤ) → is_open j (t.connect_peer p b).system ≡ is_open j b.system)

module _ {S W D T : Type 0} ⦃ts : Timestamps T⦄ ⦃ds : Durations D⦄ (s : Serializer)
    {u : UdpSockets S W D} {is_open : ℤ → W → Bool} (laws : UdpSocketLaws u is_open)
    (clock : W → T × W) (same : (j : ℤ) (w : W) → is_open j (clock w).1 ≡ is_open j w)
    (base : ℤ → Bool) where
  IsTidy-Upholds : Upholds s Anything Anything (udp_backend s u clock) (IsTidy laws base)
  unfolding udp_backend apply
  IsTidy-Upholds = record {
    now = apply-IsTidy s laws clock same base Use.reads_clock;
    send = λ e w honest. apply-IsTidy s laws clock same base (Use.sends e) w;
    poll = apply-IsTidy s laws clock same base Use.polls;
    hears = λ w e h heard. Anything-IsHonest s e.message;
  }

  IsTidy-Switches : Switches (udp_backend s u clock) (IsTidy laws base)
  unfolding udp_backend
  IsTidy-Switches = record {
    start = Starting.start-IsTidy laws base;
    stop = Starting.stop-IsTidy laws base;
  }

module _ {S W T P D : Type 0} ⦃ts : Timestamps T⦄ ⦃ds : Durations D⦄ ⦃infos : PeerInfos P⦄
    (s : Serializer) {u : UdpSockets S W D} {is_open : ℤ → W → Bool}
    (laws : UdpSocketLaws u is_open) (clock : W → T × W)
    (same : (j : ℤ) (w : W) → is_open j (clock w).1 ≡ is_open j w) (base : ℤ → Bool) where
  -- The engine's backend is tidy, and its context keeps it so.
  pub record IsClean (e : Engine (Udp S W D) T P D) : Type 0 where
    pub calm : IsCalm (IsTidy laws base) (Anything {A = Announcement T}) e.context
    pub tidy : IsTidy laws base e.world

  pub moved-IsClean :
      (e e' : Engine (Udp S W D) T P D)
      → e'.context ≡ e.context
      → IsTidy laws base e'.world
      → IsClean e
      → IsClean e'
  moved-IsClean e e' context tidy h = record {
    calm = subst (IsCalm (IsTidy laws base) (Anything {A = Announcement T})) (sym context) h.calm;
    tidy = tidy;
  }

  pub IsClean-IsKept : IsKept s (udp_backend s u clock) IsClean
  IsClean-IsKept =
      let b : Backend (Udp S W D) T = udp_backend s u clock in
      let switches : Switches b (IsTidy laws base) = IsTidy-Switches s laws clock same base in
      let up : Upholds s Anything Anything b (IsTidy laws base) =
        IsTidy-Upholds s laws clock same base in
      let context = λ (e e' : Engine (Udp S W D) T P D) (k : fixed e' ≡ fixed e).
        ap (λ (x : Context (Udp S W D) P D × Status). x.0) k in
      record {
        starting = λ e h. moved-IsClean e _ (start_context b e) (start_upheld switches e h.tidy) h;
        stopping = λ e h. moved-IsClean e _ (stop_context b e) (stop_upheld switches e h.tidy) h;
        announcing = λ e h.
            let e' : Engine (Udp S W D) T P D = (Traffic.announce_now s b e).1 in
            moved-IsClean e e' (context e e' (kept-fixed e e' (announce_now-kept s b e)))
              (announce_now_upheld s up e (Anything-Speaks s e.context) h.tidy) h;
        probing = λ e h.
            let e' : Engine (Udp S W D) T P D = (Engine.probe_now b e).1 in
            moved-IsClean e e' (context e e' (kept-fixed e e' (probe_now-kept s b e)))
              (probe_now_upheld s up e (Anything-Speaks s e.context) h.tidy) h;
        polling = λ e h.
            let e' : Engine (Udp S W D) T P D = (Traffic.poll_once s b e).1 in
            moved-IsClean e e' (context e e' (poll_once-fixed s b e))
              (poll_once_upheld s up e (Anything-Speaks s e.context) h.calm h.tidy) h;
      }

module _ {W T P D : Type 0} ⦃ts : Timestamps T⦄ ⦃ds : Durations D⦄ (b : Backend W T) where
  pub stop_stopped : (e : Engine W T P D) → Status.is_running (Engine.stop b e).status ≡ false
  unfolding Engine.stop Status.is_running
  stop_stopped e = ground arith

module _ {S W T P D : Type 0} ⦃ts : Timestamps T⦄ ⦃ds : Durations D⦄ ⦃infos : PeerInfos P⦄
    (s : Serializer) {u : UdpSockets S W D} {is_open : ℤ → W → Bool}
    (laws : UdpSocketLaws u is_open) (clock : W → T × W)
    (same : (j : ℤ) (w : W) → is_open j (clock w).1 ≡ is_open j w) where
  pub made-IsClean :
      (c : Context (Udp S W D) P D) (config : Config D) (w : W)
      → IsApart is_open c
      → IsClean s laws clock same (λ j. is_open j w) (Engine.make c (Udp.make u config w))
  unfolding Engine.make
  made-IsClean c config w apart =
      let base : ℤ → Bool = λ j. is_open j w in
      record {
        calm = λ t has a v met h.
            let p : P = infos.make a.node_id a.host a.port in
            let (kept, table) = apart t has p v in
            moved-IsTidy s laws clock same base v (t.connect_peer p v) kept table h;
        tidy = made-IsTidy s laws clock same config w;
      }

  -- After a stop of a clean engine in step with its backend no handle is left.
  pub stop_released :
      (base : ℤ → Bool) (e : Engine (Udp S W D) T P D)
      → IsClean s laws clock same base e
      → IsInStep s (udp_backend-BackendLaws s u clock) e
      → (j : ℤ) → is_open j (Engine.stop (udp_backend s u clock) e).world.system ≡ base j
  unfolding udp_backend Udp.is_running
  stop_released base e clean step =
      let b : Backend (Udp S W D) T = udp_backend s u clock in
      let stopped : IsInStep s (udp_backend-BackendLaws s u clock) (Engine.stop b e) =
        stop-IsInStep s (udp_backend-BackendLaws s u clock) e step in
      IsTidy-released s laws clock same base (Engine.stop b e).world
        (stop_upheld (IsTidy-Switches s laws clock same base) e clean.tidy)
        (sym stopped.together ∙ stop_stopped b e)

  -- An engine over a UDP backend, on a socket that keeps the promises of sockets, with a clock that
  -- opens and closes nothing and a transport engine whose connecting leaves the backend and the
  -- handles alone: after any session the open handles are those open at first and, exactly while
  -- the backend runs, its socket's as well; and after a further stop they are those of the
  -- beginning.
  pub session_handles :
      (cs : List Action) (c : Context (Udp S W D) P D) (config : Config D) (w : W)
      → IsApart is_open c
      → let b = udp_backend s u clock in
        let e = session s b cs (Engine.make c (Udp.make u config w)) in
        IsTidy laws (λ j. is_open j w) e.world
        × ((j : ℤ) → is_open j (Engine.stop b e).world.system ≡ is_open j w)
  unfolding udp_backend Udp.is_running Udp.make
  session_handles cs c config w apart =
      let b : Backend (Udp S W D) T = udp_backend s u clock in
      let base : ℤ → Bool = λ j. is_open j w in
      let e₀ : Engine (Udp S W D) T P D = Engine.make c (Udp.make u config w) in
      let e : Engine (Udp S W D) T P D = session s b cs e₀ in
      let clean : IsClean s laws clock same base e =
        session_kept s b (IsClean-IsKept s laws clock same base) cs e₀
          (made-IsClean c config w apart) in
      let step : IsInStep s (udp_backend-BackendLaws s u clock) e =
        session-IsInStep s (udp_backend-BackendLaws s u clock) cs e₀ (
          made-IsInStep s (udp_backend-BackendLaws s u clock) c (Udp.make u config w) refl
            (λ t has p v. (apart t has p v).0.1)) in
      (clean.tidy, stop_released base e clean step)
