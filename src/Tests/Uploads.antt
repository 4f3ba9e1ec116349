-- ===== src/Tests/Uploads.antt =====
-- The command `upload` of a directory with one file.
use spa_server.Base.{
  nat_eq, list_eq, option_eq, ◌≡◌, ◌⊎◌, refl, sym, ap, ◌∙◌, subst, true, none, some, [], ◌∷◌, arith,
  All,
}
use spa_server.Base.Dict
use spa_server.Base.Text.{codes, replace}
use spa_server.Base.{some-injective, length, ◌≤◌}
use spa_server.Base.Text.Decimal.{to_string, digits}
use spa_server.FileSystem.{File, read}
use spa_server.FilePath.{to_str, join, file_name}
use spa_server.Storage.{Site, get_files_metadata}
use spa_server.Client.Direct.{server_api, server_stored, IsOrdinary}
use spa_server.Client.Upload
use spa_server.Client.Upload.{uploading_files, upload_files, is_same, by_path}
use spa_server.Client.Wire.{direct}
use spa_server.Client.Commands.{
  Machine, UploadArg, CliCommand, upload, Outcome, success, uploaded, run_with_commands,
}
use spa_server.Client.Commands.Uploads.{
  CanUpload, IsSendable, run_with_commands-upload, run_with_commands-stores,
}
use spa_server.Tests.Fixtures.{crates, crates-IsWalk, site, domain}
use spa_server.Tests.Client.{
  admin_conf, root, new_page, key, local, key_named, key-IsOrdinary, upload_done, under_root,
  local_page, not_empty,
}
use spa_server.Tests.Commands
use spa_server.Tests.Encoding.{admin, replies, client, reads, encodings-Decodes}

abbrev machine : Machine
machine = record Commands.machine { fs = local }

abbrev arg : UploadArg
arg = record { path = root; domain = domain; version = some 2; parallel = none }

pending :
    uploading_files machine.walk machine.md5 machine.fs root
      (get_files_metadata crates site.storage site.fs domain 2)
    ≡ (key, new_page) ∷ []
unfolding uploading_files crates read Dict.lookup get_files_metadata join to_string digits file_name
    to_str
pending = refl

sendable :
    All
      (IsSendable crates admin replies client reads admin_conf 9 machine domain 2)
      ((key, new_page) ∷ [])
unfolding to_string digits
sendable = (
  (
    refl,
    λ f there.
        subst (λ (g : File). length (client.form domain (to_string 2) key g.content) ≤ 30000)
          (some-injective (record { content = codes "new"; modified = 1 }) f
            (sym local_page ∙ there))
          (omega arith),
  ),
  tt,
)

can_upload :
    CanUpload crates admin replies client reads admin_conf 9 machine none domain 2 root site
can_upload = record {
  config = Commands.client_config;
  read = Commands.loaded;
  token = refl;
  bound = omega arith;
  plain = refl;
  begins = omega arith;
  finishes = omega arith;
  sendable =
      subst (All (IsSendable crates admin replies client reads admin_conf 9 machine domain 2))
        (sym pending) sendable;
}

abbrev cli : CliCommand
cli = record { commands = upload arg; config_dir = none }

succeeds :
    (r : Upload.Result (Unit {0}) × Site)
    → r.0 ≡ Upload.ok tt
    → (uploaded client reads (direct crates admin replies admin_conf 9) r).0 ≡ success none
succeeds (Upload.ok tt, site) h = refl
succeeds (Upload.err e, site) h = cc

done :
    (run_with_commands client reads (direct crates admin replies admin_conf 9) machine cli site).0
    ≡ success none
done =
    ap (λ (r : Outcome × Site). r.0)
      (run_with_commands-upload crates admin replies client reads admin_conf 9 encodings-Decodes
        machine none arg root 2 site can_upload refl refl)
    ∙ succeeds
        (upload_files (server_api crates 9) machine.walk machine.md5 machine.fs domain (some 2) root
          site)
        upload_done

run_with_commands-stores_example :
    (is_same machine.md5
        (Dict.lookup
          (replace (to_str new_page) (to_str root) [])
          (by_path (get_files_metadata crates site.storage site.fs domain 2)))
        (record { content = codes "new"; modified = 1 })
      ≡ true)
    ⊎ (server_stored crates 9
          (run_with_commands client reads
            (direct crates admin replies admin_conf 9)
            machine
            cli
            site).1
          domain
          2
          (replace (to_str new_page) (to_str root) [])
        ≡ some (codes "new"))
run_with_commands-stores_example =
    run_with_commands-stores crates admin replies client reads admin_conf 9 encodings-Decodes
      machine none arg root new_page 2 (record { content = codes "new"; modified = 1 }) site
      can_upload refl refl crates-IsWalk done under_root local_page not_empty
      (subst (IsOrdinary crates 9) (sym key_named) key-IsOrdinary)
