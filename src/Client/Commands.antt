-- ===== src/Client/Commands.antt =====
-- client/src/lib.rs and client/src/commands.rs: the command line, from its arguments as `clap` reads
-- them. What is printed on success is the result; the progress of an upload is left out. The token
-- makes a valid header, without which `API::new` panics.
pub mod Release
pub mod Uploads
use spa_server.Base.{ℕ, Bool, true, false, Option, none, some, List, [], ◌∷◌}
use spa_server.Base.{unwrap_or, map_some}
use spa_server.Base.Text.{Text, codes}
use spa_server.FilePath.{FilePath}
use spa_server.FileSystem.{FileSystem}
use spa_server.FileSystem.WalkDir.{Walk}
use spa_server.Client.{ClientCrates}
use spa_server.Client.Calls.{AnswerCrates, ApiError, ApiResult, ok, err, Transport, api}
use spa_server.Client.Calls
use spa_server.Client.Config.{ConfigCrates, ConfigError, ClientConfig, load}
use spa_server.Client.Config
use spa_server.Client.Upload.{upload_files}
use spa_server.Client.Upload

pub record UploadArg : Type 0 where
  pub path : FilePath
  pub domain : Text
  pub version : Option ℕ
  pub parallel : Option ℕ

pub data Commands : Type 0 where
  info : Option Text → Commands
  upload : UploadArg → Commands
  release : Text → Option ℕ → Commands
  reload : Commands
  delete : Option Text → Option ℕ → Commands

pub record CliCommand : Type 0 where
  pub commands : Commands
  pub config_dir : Option FilePath

pub data RunError : Type 0 where
  config_error : ConfigError → RunError
  api_error : ApiError → RunError
  upload_error : Upload.Error → RunError
  -- `fs::canonicalize`
  no_path : RunError

-- `none` is an upload, of which nothing is printed at the end.
pub data Outcome : Type 0 where
  success : Option Text → Outcome
  failure : RunError → Outcome

-- What the program has from its machine.
pub record Machine : Type 0 where
  pub config_crates : ConfigCrates
  pub env_opt : Text → Option Text
  pub canonicalize : FilePath → Option FilePath
  pub fs : FileSystem
  pub walk : Walk
  pub md5 : Text → Text

module _ {S : Type 0} (client : ClientCrates) (reads : AnswerCrates) (send : Transport S) where
  abbrev printed : ApiResult Text × S → Outcome × S
  printed (ok text, s) = (success (some text), s)
  printed (err e, s) = (failure (api_error e), s)

  abbrev prints : Text → ApiResult (Unit {0}) × S → Outcome × S
  prints text (ok _, s) = (success (some text), s)
  prints text (err e, s) = (failure (api_error e), s)

  abbrev pub uploaded : Upload.Result (Unit {0}) × S → Outcome × S
  uploaded (Upload.ok _, s) = (success none, s)
  uploaded (Upload.err e, s) = (failure (upload_error e), s)

  unfoldable pub run_upload : Machine → Text → UploadArg → S → Outcome × S
  unfolding upload_files api
  run_upload machine token arg s = elim (machine.canonicalize arg.path) [
    | none ↦ (failure no_path, s)
    | some path ↦ uploaded (
        upload_files (api client reads token send) machine.walk machine.md5 machine.fs arg.domain
          arg.version path s)
  ]

  -- The match of `run_with_commands`.
  unfoldable pub run_command : Machine → Text → Commands → S → Outcome × S
  unfolding run_upload Calls.get_domain_info Calls.release_domain_version Calls.reload_sap_server
      Calls.remove_files
  run_command machine token (info domain) s =
      printed (Calls.get_domain_info client reads token send domain s)
  run_command machine token (upload arg) s = run_upload machine token arg s
  run_command machine token (release domain version) s =
      printed (Calls.release_domain_version client reads token send domain version s)
  run_command machine token reload s =
      prints (codes "reload success!") (Calls.reload_sap_server client reads token send s)
  run_command machine token (delete domain max_reserve) s =
      prints (codes "delete success!")
        (Calls.remove_files client reads token send domain max_reserve s)

  unfoldable pub run_with_commands : Machine → CliCommand → S → Outcome × S
  unfolding load run_command
  run_with_commands machine cli s =
      elim (load machine.config_crates machine.env_opt cli.config_dir) [
        | Config.err e ↦ (failure (config_error e), s)
        | Config.ok c ↦ run_command machine c.server.auth_token cli.commands s
      ]
