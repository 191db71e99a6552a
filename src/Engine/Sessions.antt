-- ===== src/Engine/Sessions.antt =====
-- The engine's public calls that change it, as data, and a history of them.
use discovery.Base.{ℕ, zero, suc, ◌+◌, List, [], ◌∷◌, Bool-cases, inl, inr}
use discovery.External.Serializer.{Serializer}
use discovery.External.Time.{Timestamps, Durations}
use discovery.External.Transport.{PeerInfos}
use discovery.Backend.{Backend}
use discovery.Engine
use discovery.Engine.{Engine}
use discovery.Engine.Traffic

pub data Action : Type 0 where
  starts stops announces probes polls : Action
  polls_many : ℕ → Action

module _ {W T P D : Type 0} ⦃ts : Timestamps T⦄ ⦃ds : Durations D⦄ ⦃infos : PeerInfos P⦄
    (s : Serializer) (b : Backend W T) where
  unfoldable pub act : Action → Engine W T P D → Engine W T P D
  act starts e = (Engine.start b e).1
  act stops e = Engine.stop b e
  act announces e = (Traffic.announce_now s b e).1
  act probes e = (Engine.probe_now b e).1
  act polls e = (Traffic.poll_once s b e).1
  act (polls_many n) e = (Traffic.poll_many s b n e).1

  unfoldable pub session : List Action → Engine W T P D → Engine W T P D
  session [] e = e
  session (c ∷ cs) e = session cs (act c e)

  -- What every public call keeps.
  pub record IsKept (Q : Engine W T P D → Type 0) : Type 0 where
    pub starting : (e : Engine W T P D) → Q e → Q (Engine.start b e).1
    pub stopping : (e : Engine W T P D) → Q e → Q (Engine.stop b e)
    pub announcing : (e : Engine W T P D) → Q e → Q (Traffic.announce_now s b e).1
    pub probing : (e : Engine W T P D) → Q e → Q (Engine.probe_now b e).1
    pub polling : (e : Engine W T P D) → Q e → Q (Traffic.poll_once s b e).1

  pub both-IsKept :
      {Q R : Engine W T P D → Type 0}
      → IsKept Q
      → IsKept R
      → IsKept (λ (e : Engine W T P D). Q e × R e)
  both-IsKept q r = record {
    starting = λ e (h, k). (q.starting e h, r.starting e k);
    stopping = λ e (h, k). (q.stopping e h, r.stopping e k);
    announcing = λ e (h, k). (q.announcing e h, r.announcing e k);
    probing = λ e (h, k). (q.probing e h, r.probing e k);
    polling = λ e (h, k). (q.polling e h, r.polling e k);
  }

  module _ {Q : Engine W T P D → Type 0} (kept : IsKept Q) where
    poll_loop_kept :
        (rounds processed : ℕ) (e : Engine W T P D)
        → Q e
        → Q (Traffic.poll_loop s b rounds processed e).1
    unfolding Traffic.poll_loop
    poll_loop_kept zero processed e h = h
    poll_loop_kept (suc rounds) processed e h = elim (Bool-cases (Traffic.poll_once s b e).0) [
      | inl more ↦
          rw (Traffic.poll_loop, more) (poll_loop_kept rounds (processed + 1) _ (kept.polling e h))
      | inr quiet ↦ rw (Traffic.poll_loop, quiet) (kept.polling e h)
    ]

    pub poll_many_kept : (n : ℕ) (e : Engine W T P D) → Q e → Q (Traffic.poll_many s b n e).1
    unfolding Traffic.poll_many
    poll_many_kept n e h = poll_loop_kept n 0 e h

    pub act_kept : (c : Action) (e : Engine W T P D) → Q e → Q (act c e)
    unfolding act
    act_kept Action.starts e h = kept.starting e h
    act_kept Action.stops e h = kept.stopping e h
    act_kept Action.announces e h = kept.announcing e h
    act_kept Action.probes e h = kept.probing e h
    act_kept Action.polls e h = kept.polling e h
    act_kept (Action.polls_many n) e h = poll_many_kept n e h

    pub session_kept : (cs : List Action) (e : Engine W T P D) → Q e → Q (session cs e)
    unfolding session
    session_kept [] e h = h
    session_kept (c ∷ cs) e h = session_kept cs (act c e) (act_kept c e h)
