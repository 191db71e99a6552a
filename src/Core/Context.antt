-- ===== src/Core/Context.antt =====
-- include/softadastra/discovery/core/DiscoveryContext.hpp. The pointers are options; the transport
-- engine, which the repository only calls, is what External/Transport lists.
use discovery.Base.{
  ◌≡◌, refl, ◌⊎◌, inl, inr, Option, none, some, Bool, false, not, ◌&&◌, is_some, if◌then◌else◌,
}
use discovery.Base.Text.{Bytes, codes}
use discovery.External.Time.{Durations}
use discovery.External.Transport.{Transport}
use discovery.Core.Config
use discovery.Core.Config.{Config}

-- The error codes of softadastra/core that the code gives.
pub data ErrorCode : Type 0 where
  invalid_state invalid_argument : ErrorCode

pub data Result (A : Type 0) : Type 0 where
  ok : A → Result A
  err : ErrorCode → Bytes → Result A

pub Result-cases :
    {A : Type 0} (r : Result A)
    → ((a : A) × (r ≡ ok a)) ⊎ ((code : ErrorCode) × (text : Bytes) × (r ≡ err code text))
Result-cases (ok a) = inl (a, refl)
Result-cases (err code text) = inr (code, text, refl)

pub record Context (W P D : Type 0) : Type 0 where
  pub config : Option (Config D)
  pub transport : Option (Transport W P)

module _ {W P D : Type 0} where
  -- DiscoveryContext(config, transport)
  unfoldable pub make : Config D → Transport W P → Context W P D
  make config transport = record { config = some config; transport = some transport }

  unfoldable pub has_config : Context W P D → Bool
  has_config c = is_some c.config

  unfoldable pub has_transport : Context W P D → Bool
  has_transport c = is_some c.transport

  unfoldable pub transport_checked : W → Context W P D → Result (Transport W P)
  transport_checked w c = elim c.transport [
    | none ↦ err invalid_state (codes "discovery context transport engine is null")
    | some t ↦
        if not (t.is_running w)
        then err invalid_state (codes "transport engine is not running")
        else ok t
  ]

module _ {W P D : Type 0} ⦃ds : Durations D⦄ where
  unfoldable pub is_valid : Context W P D → Bool
  unfolding has_config has_transport
  is_valid c =
      has_config c
      && has_transport c
      && elim c.config [ none ↦ false | some config ↦ Config.is_valid config ]

  unfoldable pub config_checked : Context W P D → Result (Config D)
  config_checked c = elim c.config [
    | none ↦ err invalid_state (codes "discovery context config is null")
    | some config ↦
        if not (Config.is_valid config)
        then err invalid_argument (codes "discovery config is invalid")
        else ok config
  ]
