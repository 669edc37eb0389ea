-- ===== src/Runtime/Owner.antt =====
-- `default_owner` of runtime-worker/src/main.rs. The name of the host, the process id and a fresh UUID are
-- arguments.
pub mod Laws
use eal_sync.Prelude.{ℕ, List, ◌++◌, Option, none, some, take, if◌then◌else◌}
use eal_sync.Prelude.Text.{Text, codes, trim, is_empty}

-- the part of the name that is used, if it is not blank
unfoldable pub host_part : Option Text → Text
host_part none = codes "worker"
host_part (some hostname) =
    if is_empty (trim (take 120 hostname)) then codes "worker" else take 120 hostname

unfoldable pub default_owner : Option Text → Text → Text → Text
default_owner hostname process_id uuid =
    host_part hostname ++ (codes "-" ++ (process_id ++ (codes "-" ++ uuid)))
