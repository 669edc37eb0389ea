-- ===== src/Net/Url.antt =====
-- The url crate, which the repository does not hold: its type and the methods that the program calls are a
-- parameter of whatever reads a URL.
use eal_sync.Prelude.{ℕ, Option, List}
use eal_sync.Prelude.Text.{Text}

pub record UrlCrate : Type 1 where
  pub Url : Type 0
  pub parse : Text → Option Url
  pub as_str : Url → Text
  pub scheme : Url → Text
  pub username : Url → Text
  pub password : Url → Option Text
  pub host_str : Url → Option Text
  pub port : Url → Option ℕ
  pub port_or_known_default : Url → Option ℕ
  pub path : Url → Text
  pub path_segments : Url → Option (List Text)
  pub query : Url → Option Text
  pub fragment : Url → Option Text
  pub join : Url → Text → Option Url
  -- `set_fragment(None)`
  pub without_fragment : Url → Url
