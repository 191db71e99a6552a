-- ===== src/Types/PeerState.antt =====
-- include/softadastra/discovery/types/DiscoveryPeerState.hpp. Nothing casts a number to this type, so it has
-- its enumerators alone.
use discovery.Base.{◌≡◌, ◌↔◌, true, arith, ℕ, Bool, ◌||◌, ◌==◌}
use discovery.Base.Text.{Bytes, codes}

pub data PeerState : Type 0 where
  unknown discovered alive stale expired : PeerState

unfoldable pub to_u8 : PeerState → ℕ
to_u8 unknown = 0
to_u8 discovered = 1
to_u8 alive = 2
to_u8 stale = 3
to_u8 expired = 4

-- `operator==` of two states.
unfoldable pub same_state : PeerState → PeerState → Bool
unfolding to_u8
same_state a b = to_u8 a == to_u8 b

unfoldable pub to_string : PeerState → Bytes
to_string unknown = codes "unknown"
to_string discovered = codes "discovered"
to_string alive = codes "alive"
to_string stale = codes "stale"
to_string expired = codes "expired"

unfoldable pub is_valid : PeerState → Bool
unfolding same_state
is_valid state =
    same_state state discovered
    || same_state state alive
    || same_state state stale
    || same_state state expired

unfoldable pub is_available : PeerState → Bool
unfolding same_state
is_available state = same_state state discovered || same_state state alive

unfoldable pub is_unavailable : PeerState → Bool
unfolding same_state
is_unavailable state =
    same_state state unknown || same_state state stale || same_state state expired

unfoldable pub is_expired : PeerState → Bool
unfolding same_state
is_expired state = same_state state expired

pub same_state_iff : (a b : PeerState) → (same_state a b ≡ true) ↔ (a ≡ b)
unfolding same_state
same_state_iff a b = ground arith
