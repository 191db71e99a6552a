-- ===== src/Core/Datagram.antt =====
-- include/softadastra/discovery/utils/Datagram.hpp
use discovery.Base.{ℕ, ◌==◌, [], Bool, not, ◌&&◌, is_empty, length}
use discovery.Base.Text.{Bytes}

pub record Datagram : Type 0 where
  pub host : Bytes
  pub port : ℕ
  pub payload : Bytes

-- Datagram{}
unfoldable pub initial : Datagram
initial = record { host = []; port = 0; payload = [] }

unfoldable pub has_endpoint : Datagram → Bool
has_endpoint d = not (is_empty d.host) && not (d.port == 0)

unfoldable pub has_payload : Datagram → Bool
has_payload d = not (is_empty d.payload)

unfoldable pub payload_size : Datagram → ℕ
payload_size d = length d.payload

unfoldable pub is_valid : Datagram → Bool
unfolding has_endpoint has_payload
is_valid d = has_endpoint d && has_payload d

unfoldable pub clear : Datagram → Datagram
clear d = record { host = []; port = 0; payload = [] }
