-- ===== src/Platform/Ownership.antt =====
-- How a socket's calls change which of the system's handles are open.
use discovery.Base.{◌≡◌, ◌∙◌, Bool, true, false, ◌&&◌, arith, if◌then◌else◌}
use discovery.Base.Int.{ℤ, same_ℤ, same_ℤ_iff}
use discovery.Platform.{Owns}

module _ {W : Type 0} {is_open : ℤ → W → Bool} {base : ℤ → Bool} where
  -- Without a socket exactly the handles of `base` are open.
  pub Owns-released :
      {valid : Bool} {handle : ℤ} {w : W}
      → valid ≡ false
      → Owns is_open base valid handle w
      → (j : ℤ) → is_open j w ≡ base j
  Owns-released off h j = ground (arith, h.table j)

  pub Owns-none :
      {valid : Bool} {handle : ℤ} {w : W}
      → valid ≡ false
      → ((j : ℤ) → is_open j w ≡ base j)
      → Owns is_open base valid handle w
  Owns-none off h = record { table = λ j. ground (arith, h j); fresh = λ on. ground arith }

  -- A call that leaves the table alone.
  pub Owns-kept :
      {valid : Bool} {handle : ℤ} {w w' : W}
      → ((j : ℤ) → is_open j w' ≡ is_open j w)
      → Owns is_open base valid handle w
      → Owns is_open base valid handle w'
  Owns-kept same h = record { table = λ j. same j ∙ h.table j; fresh = h.fresh }

  pub Owns-acquired :
      {valid : Bool} {handle : ℤ} {w' : W} (w : W)
      → ((j : ℤ) → is_open j w ≡ base j)
      → ((j : ℤ) → is_open j w' ≡ (if valid && same_ℤ handle j then true else is_open j w))
      → (valid ≡ true → is_open handle w ≡ false)
      → Owns is_open base valid handle w'
  Owns-acquired {handle} w none opened fresh = record {
    table = λ j. ground (arith, none j, opened j);
    fresh = λ on. ground (arith, none handle, fresh on);
  }

  pub Owns-closed :
      {valid : Bool} {handle : ℤ} {w w' : W}
      → valid ≡ true
      → ((j : ℤ) → is_open j w' ≡ (if same_ℤ handle j then false else is_open j w))
      → Owns is_open base valid handle w
      → (j : ℤ) → is_open j w' ≡ base j
  Owns-closed {handle} on closed h j =
      ground (arith, h.table j, h.fresh on, closed j, same_ℤ_iff handle j)
