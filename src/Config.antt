-- ===== src/Config.antt =====
-- server/src/config.rs: the configuration that `hocon` reads, and its defaults. A duration is a
-- number of seconds.
use spa_server.Base.{ℕ, ◌*◌, Bool, true, false, ◌&&◌, Option, none, some, List, []}
use spa_server.Base.{◌==◌, nat_eq, list_eq, option_eq}
use spa_server.Base.Text.{Text, codes}

pub record Ssl : Type 0 where
  pub private : Text
  pub public : Text

pub record ClientCacheItem : Type 0 where
  pub expire : ℕ
  pub extension_names : List Text

pub record CacheConfig : Type 0 where
  pub max_size : ℕ
  pub compression : Bool
  pub client_cache : List ClientCacheItem

pub record DomainCacheConfig : Type 0 where
  pub max_size : Option ℕ
  pub compression : Option Bool
  pub client_cache : Option (List ClientCacheItem)

pub record DomainHttpsConfig : Type 0 where
  pub ssl : Option Ssl
  pub http_redirect_to_https : Option Bool

pub record DomainConfig : Type 0 where
  pub domain : Text
  pub cors : Option Bool
  pub cache : Option DomainCacheConfig
  pub https : Option DomainHttpsConfig

pub record HttpsConfig : Type 0 where
  pub ssl : Option Ssl
  pub port : ℕ
  pub addr : Text
  pub http_redirect_to_https : Bool

pub record DeprecatedVersionRemove : Type 0 where
  pub cron : Text
  pub max_reserve : ℕ

pub record AdminConfig : Type 0 where
  pub port : ℕ
  pub addr : Text
  pub token : Text
  pub max_upload_size : ℕ
  pub deprecated_version_delete : Option DeprecatedVersionRemove

pub record Config : Type 0 where
  pub port : ℕ
  pub addr : Text
  pub file_dir : Text
  pub cors : Bool
  pub admin_config : Option AdminConfig
  pub https : Option HttpsConfig
  pub cache : CacheConfig
  pub domains : List DomainConfig

abbrev pub default_max_upload_size : ℕ
default_max_upload_size = 30 * 1024 * 1024

abbrev pub default_max_size : ℕ
default_max_size = 10 * 1024 * 1024

abbrev pub default_cron : Text
default_cron = codes "0 0 3 * * *"

abbrev pub default_max_reserve : ℕ
default_max_reserve = 2

-- `CacheConfig::default`
abbrev pub default_cache : CacheConfig
default_cache = record { max_size = default_max_size; compression = false; client_cache = [] }

-- The derived `PartialEq` of the administration's configuration.
unfoldable pub remove_eq : DeprecatedVersionRemove → DeprecatedVersionRemove → Bool
unfolding nat_eq list_eq
remove_eq a b = a.cron == b.cron && a.max_reserve == b.max_reserve

unfoldable pub opt_remove_eq :
    Option DeprecatedVersionRemove → Option DeprecatedVersionRemove → Bool
unfolding remove_eq
opt_remove_eq none none = true
opt_remove_eq (some a) (some b) = remove_eq a b
opt_remove_eq _ _ = false

unfoldable pub admin_eq : AdminConfig → AdminConfig → Bool
unfolding nat_eq list_eq opt_remove_eq
admin_eq a b =
    a.port == b.port
    && a.addr == b.addr
    && a.token == b.token
    && a.max_upload_size == b.max_upload_size
    && opt_remove_eq a.deprecated_version_delete b.deprecated_version_delete
