-- ===== src/Types/MessageType.antt =====
-- include/softadastra/discovery/types/DiscoveryMessageType.hpp
use discovery.Base.{
  ℕ, ◌≡◌, ◌≢◌, refl, ◌⊎◌, inl, inr, arith, ◌==◌, Bool, true, false, ◌||◌, if◌then◌else◌,
}
use discovery.Base.Text.{Bytes, codes}

pub data MessageType : Type 0 where
  unknown announce probe reply : MessageType
  unnamed : ℕ → MessageType

pub probe-cases : (t : MessageType) → (t ≡ probe) ⊎ (t ≢ probe)
probe-cases unknown = inr (λ h. ground (arith, h))
probe-cases announce = inr (λ h. ground (arith, h))
probe-cases probe = inl refl
probe-cases reply = inr (λ h. ground (arith, h))
probe-cases (unnamed raw) = inr (λ h. ground (arith, h))

-- static_cast<DiscoveryMessageType>(raw)
unfoldable pub from_u8 : ℕ → MessageType
from_u8 raw =
    if raw == 0
    then unknown
    else if raw == 1
    then announce
    else if raw == 2
    then probe
    else if raw == 3
    then reply
    else unnamed raw

-- static_cast<std::uint8_t>(type)
unfoldable pub to_u8 : MessageType → ℕ
to_u8 unknown = 0
to_u8 announce = 1
to_u8 probe = 2
to_u8 reply = 3
to_u8 (unnamed raw) = raw

unfoldable pub to_string : MessageType → Bytes
to_string unknown = codes "unknown"
to_string announce = codes "announce"
to_string probe = codes "probe"
to_string reply = codes "reply"
to_string (unnamed raw) = codes "invalid"

unfoldable pub is_announcement : MessageType → Bool
is_announcement announce = true
is_announcement _ = false

is_probe : MessageType → Bool
is_probe probe = true
is_probe _ = false

is_reply : MessageType → Bool
is_reply reply = true
is_reply _ = false

unfoldable pub is_valid : MessageType → Bool
unfolding is_announcement is_probe is_reply
is_valid type = is_announcement type || is_probe type || is_reply type

unfoldable pub is_probe_flow : MessageType → Bool
unfolding is_probe is_reply
is_probe_flow type = is_probe type || is_reply type
