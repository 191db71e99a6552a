-- ===== src/Engine/Polling.antt =====
-- `poll_many` against repeated calls of `poll_once`.
use discovery.Base.{
  subst, ℕ, zero, suc, ◌+◌, ◌<◌, ◌≡◌, ◌⊎◌, refl, ap, arith, true, false, Bool-cases, inl, inr,
}
use discovery.External.Serializer.{Serializer}
use discovery.External.Time.{Timestamps, Durations}
use discovery.External.Transport.{PeerInfos}
use discovery.Backend.{Backend}
use discovery.Engine.{Engine}
use discovery.Engine.Traffic.{poll_once, poll_loop, poll_many}

module _ {W T P D : Type 0} ⦃ts : Timestamps T⦄ ⦃ds : Durations D⦄ ⦃infos : PeerInfos P⦄
    (s : Serializer) (b : Backend W T) where
  abbrev pub polled : ℕ → Engine W T P D → Engine W T P D
  polled zero e = e
  polled (suc n) e = polled n (poll_once s b e).1

  -- Each of the first polls handles a message.
  abbrev pub Busy : ℕ → Engine W T P D → Type 0
  Busy zero e = Unit {0}
  Busy (suc n) e = ((poll_once s b e).0 ≡ true) × Busy n (poll_once s b e).1

  -- `handled` polls have handled a message, and either that is the limit or the next one did not.
  abbrev pub Polls : ℕ → Engine W T P D → ℕ → Engine W T P D → Type 0
  Polls limit e handled e' =
      Busy handled e
      × (((handled ≡ limit) × (e' ≡ polled handled e))
          ⊎ ((handled < limit) × (poll_once s b (polled handled e) ≡ (false, e'))))

  poll_loop-Polls :
      (limit processed : ℕ) (e : Engine W T P D)
      → (handled : ℕ) × ((poll_loop s b limit processed e).0 ≡ processed + handled)
        × Polls limit e handled (poll_loop s b limit processed e).1
  unfolding poll_loop
  poll_loop-Polls zero processed e = (0, omega arith, (tt, inl (refl, refl)))
  poll_loop-Polls (suc limit) processed e = elim (Bool-cases (poll_once s b e).0) [
    | inr quiet ↦
        rw (poll_loop, quiet)
          (0, omega arith, (tt, inr (omega arith, ap (λ x. (x, (poll_once s b e).1)) quiet)))
    | inl more ↦
        let (handled, count, (busy, last)) =
          poll_loop-Polls limit (processed + 1) (poll_once s b e).1 in
        rw (poll_loop, more)
          (
            suc handled,
            omega (arith, count),
            (
              (more, busy),
              elim last [
                | inl (full, same) ↦ inl (ap suc full, same)
                | inr (early, quiet) ↦ inr (omega (arith, early), quiet)
              ],
            ),
          )
  ]

  -- `poll_many` returns the number of its first polls that handled a message; either that number
  -- is the limit, or the next `poll_once` returned false and left the engine that `poll_many`
  -- leaves.
  pub poll_many-Polls :
      (limit : ℕ) (e : Engine W T P D)
      → Polls limit e (poll_many s b limit e).0 (poll_many s b limit e).1
  unfolding poll_many
  poll_many-Polls limit e =
      let (handled, count, outcome) = poll_loop-Polls limit 0 e in
      subst (λ n. Polls limit e n (poll_loop s b limit 0 e).1) (omega (arith, count)) outcome
