-- ===== src/Types/Status.antt =====
-- include/softadastra/discovery/types/DiscoveryStatus.hpp
use discovery.Base.{Bool, true, false}
use discovery.Base.Text.{Bytes, codes}

pub data Status : Type 0 where
  stopped starting running stopping failed : Status

unfoldable pub to_string : Status → Bytes
to_string stopped = codes "stopped"
to_string starting = codes "starting"
to_string running = codes "running"
to_string stopping = codes "stopping"
to_string failed = codes "failed"

unfoldable pub is_valid : Status → Bool
is_valid stopped = true
is_valid starting = true
is_valid running = true
is_valid stopping = true
is_valid failed = true

unfoldable pub is_running : Status → Bool
is_running running = true
is_running _ = false

unfoldable pub is_transitioning : Status → Bool
is_transitioning starting = true
is_transitioning stopping = true
is_transitioning _ = false

unfoldable pub is_terminal : Status → Bool
is_terminal stopped = true
is_terminal failed = true
is_terminal _ = false
