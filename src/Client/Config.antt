-- ===== src/Client/Config.antt =====
-- client/src/config.rs: the client's configuration, from a file that `hocon` reads and from the
-- environment.
use spa_server.Base.{ℕ, ◌≡◌, Option, none, some, arith}
use spa_server.Base.{or, and_then, unwrap_or}
use spa_server.Base.Text.{Text, codes}
use spa_server.Base.Text.Decimal.{parse_u32}
use spa_server.FilePath.{FilePath}

pub record AdminServerConfig : Type 0 where
  pub address : Text
  pub auth_token : Text

pub record UploadConfig : Type 0 where
  pub parallel : ℕ

pub record ClientConfig : Type 0 where
  pub server : AdminServerConfig
  pub upload : UploadConfig

pub data ConfigError : Type 0 where
  unread no_address no_auth_token : ConfigError

pub data Loaded : Type 0 where
  ok : ClientConfig → Loaded
  err : ConfigError → Loaded

-- `hocon[a][b].as_string()`, `HoconLoader::load_file(path)?.hocon()?`, and `hocon()` with no file.
abbrev pub Hocon : Type 0
Hocon = Text → Text → Option Text

pub record ConfigCrates : Type 0 where
  pub load_file : FilePath → Option Hocon
  pub no_file : Option Hocon

-- A setting: the file's, or else the environment's.
unfoldable pub setting : Hocon → (Text → Option Text) → Text → Text → Text → Option Text
setting hocon env_opt group name variable = or (hocon group name) (env_opt variable)

unfoldable pub uploading_config : Hocon → (Text → Option Text) → UploadConfig
unfolding setting parse_u32
uploading_config hocon env_opt = record {
  parallel =
      unwrap_or
        (and_then
          (setting hocon env_opt (codes "upload") (codes "parallel") (codes "SPA_UPLOAD_PARALLEL"))
          parse_u32)
        3;
}

-- `Config::load` behind the reading of the file.
unfoldable pub read_config : Hocon → (Text → Option Text) → Loaded
unfolding setting uploading_config
read_config hocon env_opt =
    elim (setting hocon env_opt (codes "server") (codes "address") (codes "SPA_SERVER_ADDRESS")) [
      | none ↦ err no_address
      | some address ↦
          elim (setting hocon env_opt (codes "server") (codes "auth_token")
            (codes "SPA_SERVER_AUTH_TOKEN")) [
              | none ↦ err no_auth_token
              | some auth_token ↦ ok (record {
                server = record { address = address; auth_token = auth_token };
                upload = uploading_config hocon env_opt;
              })
            ]
    ]

unfoldable pub load_hocon : ConfigCrates → Option FilePath → Option Hocon
load_hocon crates none = crates.no_file
load_hocon crates (some path) = crates.load_file path

unfoldable pub load : ConfigCrates → (Text → Option Text) → Option FilePath → Loaded
unfolding read_config load_hocon
load crates env_opt config_dir = elim (load_hocon crates config_dir) [
  | none ↦ err unread
  | some hocon ↦ read_config hocon env_opt
]

-- How many transfers a text of the file and one of the environment ask for.
unfoldable pub expected_parallel : Option Text → Option Text → ℕ
unfolding parse_u32
expected_parallel (some text) variable = unwrap_or (parse_u32 text) 3
expected_parallel none (some variable) = unwrap_or (parse_u32 variable) 3
expected_parallel none none = 3

-- A configuration that is read: the address and the token are the file's, or the environment's where
-- the file has none. So is the number of transfers, and it is 3 where neither has one, and also
-- where the text that counts is no `u32`, even if the environment has one.
pub load_settings :
    (crates : ConfigCrates) (env_opt : Text → Option Text) (config_dir : Option FilePath)
    (hocon : Hocon) (address token : Text)
    → load_hocon crates config_dir ≡ some hocon
    → or (hocon (codes "server") (codes "address")) (env_opt (codes "SPA_SERVER_ADDRESS"))
      ≡ some address
    → or (hocon (codes "server") (codes "auth_token")) (env_opt (codes "SPA_SERVER_AUTH_TOKEN"))
      ≡ some token
    → load crates env_opt config_dir
      ≡ ok (record {
        server = record { address = address; auth_token = token };
        upload = record {
          parallel =
              expected_parallel
                (hocon (codes "upload") (codes "parallel"))
                (env_opt (codes "SPA_UPLOAD_PARALLEL"));
        };
      })
unfolding load read_config setting uploading_config expected_parallel
load_settings crates env_opt config_dir hocon address token read at_address with_token =
    ground (arith, read, at_address, with_token)
