-- ===== src/Identity.antt =====
-- src/server/security/server_identity.c: the address that a server takes for its own. What the
-- configuration file gives under a key is a parameter.
use wind_cloud_v.Shared.{Option, none, some}
use wind_cloud_v.Shared.Text.{Bytes, codes, snprintf, ◌>>=◌}

abbrev pub Config : Type 0
Config = Bytes → Option Bytes

abbrev target_or : Config → Bytes → Bytes → Bytes
target_or config key default = elim (config key) [ none ↦ default | some value ↦ value ]

-- The callers' buffers have 64 and 16 bytes.
unfoldable pub get_current_server_address : Config → Option (Bytes × Bytes)
get_current_server_address config =
    snprintf 64 (target_or config (codes "ip") (codes "127.0.0.1")) >>= λ ip.
    snprintf 16 (target_or config (codes "port") (codes "9090")) >>= λ port. some (ip, port)
