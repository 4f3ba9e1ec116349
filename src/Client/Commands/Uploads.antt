-- ===== src/Client/Commands/Uploads.antt =====
-- client/src/lib.rs, client/src/upload_files.rs and server/src/domain_storage.rs: the command `upload`
-- against a server.
use spa_server.Base.{
  nat_eq, list_eq, ℕ, ◌*◌, ◌≤◌, ◌<◌, ◌≡◌, ◌≢◌, ◌⊎◌, refl, sym, ap, ◌∙◌, subst, true, Option, none,
  some, [], length, All, All-map,
}
use spa_server.Base.Dict
use spa_server.Base.Text.{Text, replace}
use spa_server.Base.Text.Decimal.{u32_mod, to_string}
use spa_server.FilePath.{FilePath, is_under, to_str}
use spa_server.FileSystem.{File, read}
use spa_server.FileSystem.WalkDir.{IsWalk}
use spa_server.Config.{AdminConfig}
use spa_server.Crates.{Crates}
use spa_server.Storage.{Site, uploading, finish, get_files_metadata}
use spa_server.Admin.Routes.{AdminCrates}
use spa_server.Client.{ClientCrates}
use spa_server.Client.Calls.{AnswerCrates}
use spa_server.Client.Config.{ClientConfig, load}
use spa_server.Client.Config
use spa_server.Client.Direct.{server_api, server_stored, IsOrdinary, server_api-IsStore}
use spa_server.Client.Upload
use spa_server.Client.Upload.{upload_files, uploading_files, is_same, by_path}
use spa_server.Client.Upload.Agrees.{Takes, upload_files-agrees}
use spa_server.Client.Upload.Stores.{upload_files-stores}
use spa_server.Client.Wire.{ReplyCrates, direct, Decodes}
use spa_server.Client.Wire.Agrees.{wire, status-agrees, metadata-agrees, upload-agrees}
use spa_server.Client.Commands.{
  Machine, UploadArg, upload, Outcome, success, uploaded, run_upload, run_with_commands,
}

module _ (crates : Crates) (admin : AdminCrates) (replies : ReplyCrates) (client : ClientCrates)
    (reads : AnswerCrates) (conf : AdminConfig) (now : ℕ) where
  -- The server can take a file of a version: its key is UTF-8 and its form not too long.
  abbrev pub IsSendable : Machine → Text → ℕ → Text × FilePath → Type 0
  IsSendable machine d v (key, path) =
      (admin.from_utf8 key ≡ some key)
      × ((f : File)
          → read machine.fs path ≡ some f
          → length (client.form d (to_string v) key f.content) ≤ conf.max_upload_size)

  -- What a run of the command needs.
  pub record CanUpload (machine : Machine) (config_dir : Option FilePath) (d : Text) (v : ℕ)
      (path : FilePath) (site : Site) : Type 0 where
    pub config : ClientConfig
    pub read : load machine.config_crates machine.env_opt config_dir ≡ Config.ok config
    pub token : config.server.auth_token ≡ conf.token
    pub bound : v < u32_mod
    pub plain : admin.from_utf8 d ≡ some d
    pub begins :
        length (client.status_json (record { domain = d; version = v; status = uploading }))
        ≤ 1024 * 16
    pub finishes :
        length (client.status_json (record { domain = d; version = v; status = finish }))
        ≤ 1024 * 16
    pub sendable : All (IsSendable machine d v) (
        uploading_files machine.walk machine.md5 machine.fs path
          (get_files_metadata crates site.storage site.fs d v))

  module _ (decodes : Decodes admin replies client reads) where
    run_upload-wire :
        (machine : Machine) (arg : UploadArg) (path : FilePath) (v : ℕ) (site : Site)
        → machine.canonicalize arg.path ≡ some path
        → arg.version ≡ some v
        → run_upload client reads (direct crates admin replies conf now) machine conf.token arg site
          ≡ uploaded client reads (direct crates admin replies conf now) (
              upload_files
                (wire crates admin replies client reads conf now)
                machine.walk
                machine.md5
                machine.fs
                arg.domain
                (some v)
                path
                site)
    unfolding run_upload wire
    run_upload-wire machine arg path v site found chosen = rw (found, run_upload, chosen) refl

    pub run_with_commands-upload :
        (machine : Machine) (config_dir : Option FilePath) (arg : UploadArg) (path : FilePath)
        (v : ℕ) (site : Site)
        → CanUpload machine config_dir arg.domain v path site
        → machine.canonicalize arg.path ≡ some path
        → arg.version ≡ some v
        → run_with_commands client reads
            (direct crates admin replies conf now)
            machine
            (record { commands = upload arg; config_dir = config_dir })
            site
          ≡ uploaded client reads (direct crates admin replies conf now) (
              upload_files
                (server_api crates now)
                machine.walk
                machine.md5
                machine.fs
                arg.domain
                (some v)
                path
                site)
    unfolding run_with_commands wire server_api
    run_with_commands-upload machine config_dir arg path v site can found chosen =
        let d : Text = arg.domain in
        let listed = get_files_metadata crates site.storage site.fs d v in
        rw (can.read, run_with_commands, can.token)
          (run_upload-wire machine arg path v site found chosen
            ∙ ap (uploaded client reads (direct crates admin replies conf now)) (
                upload_files-agrees (wire crates admin replies client reads conf now)
                  (server_api crates now) machine.walk machine.md5 machine.fs d v path site site
                  listed
                  (metadata-agrees crates admin replies client reads conf now decodes d v site
                    can.bound)
                  refl
                  (λ s.
                    status-agrees crates admin replies client reads conf now decodes _ s can.begins)
                  (λ s.
                    status-agrees crates admin replies client reads conf now decodes _ s
                      can.finishes)
                  (All-map (IsSendable machine d v)
                    (Takes (wire crates admin replies client reads conf now) (server_api crates now)
                      machine.fs d v)
                    (uploading_files machine.walk machine.md5 machine.fs path listed)
                    (λ e sendable f there s.
                      upload-agrees crates admin replies client reads conf now decodes d e.0
                        f.content v s can.bound can.plain sendable.0 (sendable.1 f there))
                    can.sendable)))

    success-ok :
        (r : Upload.Result (Unit {0}) × Site)
        → (uploaded client reads (direct crates admin replies conf now) r).0 ≡ success none
        → r.0 ≡ Upload.ok tt
    success-ok (Upload.ok tt, site) h = refl
    success-ok (Upload.err e, site) h = cc

    uploaded-site :
        (r : Upload.Result (Unit {0}) × Site)
        → (uploaded client reads (direct crates admin replies conf now) r).1 ≡ r.1
    uploaded-site (Upload.ok tt, site) = refl
    uploaded-site (Upload.err e, site) = refl

    -- The command `upload` for a version, with a configuration that is read and has the server's token,
    -- over a connection to the server that can take each file: if it succeeds, then of every file below
    -- the directory that is not empty and whose key is ordinary, either the server had it already, as
    -- far as the length and the digest that it listed tell, or it has the file's bytes under that key.
    pub run_with_commands-stores :
        (machine : Machine) (config_dir : Option FilePath) (arg : UploadArg) (root path : FilePath)
        (v : ℕ) (f : File) (site : Site)
        → CanUpload machine config_dir arg.domain v root site
        → machine.canonicalize arg.path ≡ some root
        → arg.version ≡ some v
        → IsWalk machine.walk
        → (run_with_commands client reads
            (direct crates admin replies conf now)
            machine
            (record { commands = upload arg; config_dir = config_dir })
            site).0
          ≡ success none
        → is_under root path ≡ true
        → read machine.fs path ≡ some f
        → f.content ≢ []
        → IsOrdinary crates now (replace (to_str path) (to_str root) [])
        → let key = replace (to_str path) (to_str root) [] in
          let after =
            (run_with_commands client reads
              (direct crates admin replies conf now)
              machine
              (record { commands = upload arg; config_dir = config_dir })
              site).1 in
          (is_same machine.md5
              (Dict.lookup key
                (by_path (get_files_metadata crates site.storage site.fs arg.domain v)))
              f
            ≡ true)
          ⊎ (server_stored crates now after arg.domain v key ≡ some f.content)
    unfolding server_api Upload.get_upload_version
    run_with_commands-stores machine config_dir arg root path v f site can found chosen walks done
          under there full plain =
        let d : Text = arg.domain in
        let key : Text = replace (to_str path) (to_str root) [] in
        let listed = get_files_metadata crates site.storage site.fs d v in
        let direct_run =
          upload_files (server_api crates now) machine.walk machine.md5 machine.fs d (some v) root
            site in
        let same = run_with_commands-upload machine config_dir arg root v site can found chosen in
        subst
          (λ (after : Site).
            (is_same machine.md5 (Dict.lookup key (by_path listed)) f ≡ true)
            ⊎ (server_stored crates now after d v key ≡ some f.content))
          (sym (ap (λ (r : Outcome × Site). r.1) same ∙ uploaded-site direct_run))
          (upload_files-stores (server_api crates now) (server_stored crates now)
            (IsOrdinary crates now) (server_api-IsStore crates now) machine.walk machine.md5
            machine.fs d (some v) root path f site site site v listed walks refl refl
            (success-ok direct_run (sym (ap (λ (r : Outcome × Site). r.0) same) ∙ done)) under there
            full plain)
