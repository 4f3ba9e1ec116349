-- ===== src/FileCache.antt =====
-- server/src/file_cache.rs
pub mod Entries
pub mod Keys
use spa_server.Base.{ℕ, Bool, true, false, ◌&&◌, Option, none, some, List, [], ◌∷◌, ◌++◌, map}
use spa_server.Base.{
  if◌then◌else◌, ltb, length, unwrap_or, map_some, and_then, filter_map, contains, nat_eq, list_eq,
}
use mathlib.Core.List.{flatten}
use spa_server.Base.Dict
use spa_server.Base.Dict.{Dict}
use spa_server.Base.Text.{Text, codes, last_piece, replace}
use spa_server.FilePath.{FilePath, to_str}
use spa_server.FileSystem.{File, FileSystem, read}
use spa_server.Config
use spa_server.Config.{CacheConfig, ClientCacheItem, Config, DomainConfig}
use spa_server.Crates.{Crates}

pub record DomainCacheConfig : Type 0 where
  pub default : CacheConfig
  pub inner : Dict Text CacheConfig

pub data DataBlock : Type 0 where
  -- the bytes, whether they are compressed, and the file's path
  cache_block : Text → Bool → FilePath → DataBlock
  file_block : FilePath → DataBlock

pub record Metadata : Type 0 where
  pub len : ℕ
  pub modified : ℕ

pub record CacheItem : Type 0 where
  pub meta : Metadata
  pub block : DataBlock
  pub mime : Text
  pub expire : Option ℕ

pub record FileCache : Type 0 where
  pub conf : DomainCacheConfig
  pub items : Dict Text (Dict Text CacheItem)

-- One domain's settings, each with the default where the domain has none.
unfoldable pub domain_cache : CacheConfig → DomainConfig → Text × CacheConfig
domain_cache default d = (
  d.domain,
  record {
    max_size = unwrap_or (and_then d.cache (λ c. c.max_size)) default.max_size;
    compression = unwrap_or (and_then d.cache (λ c. c.compression)) default.compression;
    client_cache = unwrap_or (and_then d.cache (λ c. c.client_cache)) default.client_cache;
  },
)

-- `DomainCacheConfig::new`
unfoldable pub new_domain_cache_config : Config → DomainCacheConfig
unfolding domain_cache Dict.collect
new_domain_cache_config conf = record {
  default = conf.cache;
  inner = Dict.collect (map (domain_cache conf.cache) conf.domains) [];
}

unfoldable pub get_domain_cache_config : DomainCacheConfig → Text → CacheConfig
get_domain_cache_config c domain = unwrap_or (Dict.lookup domain c.inner) c.default

abbrev expire_pairs : ClientCacheItem → List (Text × ℕ)
expire_pairs item = map (λ name. (name, item.expire)) item.extension_names

unfoldable pub get_domain_expire_config : DomainCacheConfig → Text → Dict Text ℕ
unfolding get_domain_cache_config Dict.collect
get_domain_expire_config c domain =
    Dict.collect (flatten (map expire_pairs (get_domain_cache_config c domain).client_cache)) []

abbrev pub compression_file_type : List Text
compression_file_type = codes "html" ∷ codes "js" ∷ codes "icon" ∷ codes "json" ∷ codes "css" ∷ []

-- `FileCache::new`
unfoldable pub new_file_cache : Config → FileCache
unfolding new_domain_cache_config
new_file_cache conf = record { conf = new_domain_cache_config conf; items = [] }

-- `FileCache::update`
unfoldable pub update : FileCache → Text → Dict Text CacheItem → FileCache
update cache domain items = record cache { items = Dict.insert domain items cache.items }

unfoldable pub get_item : FileCache → Text → Text → Option CacheItem
get_item cache domain path = and_then (Dict.lookup domain cache.items) (Dict.lookup path)

module _ (crates : Crates) where
  open crates use {walk, guess_mime, gzip}

  unfoldable pub data_block : CacheConfig → Text → FilePath → File → DataBlock
  unfolding nat_eq list_eq
  data_block conf extension_name path f =
      if ltb conf.max_size (length f.content)
      then file_block path
      else if conf.compression && contains compression_file_type extension_name
      then cache_block (gzip f.content) true path
      else cache_block f.content false path

  -- The item of one file, under the key that is left of its path.
  unfoldable pub cache_file : CacheConfig → Dict Text ℕ → Text → FilePath → File → Text × CacheItem
  unfolding data_block last_piece replace
  cache_file conf expire_config prefix path f =
      let key = replace (to_str path) prefix [] in
      let extension_name = last_piece b'.' key in
      (
        key,
        record {
          meta = record { len = length f.content; modified = f.modified };
          block = data_block conf extension_name path f;
          mime = guess_mime path;
          expire = Dict.lookup extension_name expire_config;
        },
      )

  -- What the walk's closure makes of an entry: nothing, unless it is a file that can be read.
  unfoldable pub cache_entry :
      FileSystem → CacheConfig → Dict Text ℕ → Text → FilePath → Option (Text × CacheItem)
  unfolding cache_file
  cache_entry fs conf expire_config prefix path =
      map_some (cache_file conf expire_config prefix path) (read fs path)

  unfoldable pub cache_dir : FileCache → FileSystem → Text → FilePath → Dict Text CacheItem
  unfolding get_domain_cache_config get_domain_expire_config cache_entry Dict.collect
  cache_dir cache fs domain path =
      let conf = get_domain_cache_config cache.conf domain in
      let expire_config = get_domain_expire_config cache.conf domain in
      Dict.collect
        (filter_map (cache_entry fs conf expire_config (to_str path ++ b'/' ∷ []))
          (walk fs path none))
        []
