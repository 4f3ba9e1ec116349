-- ===== src/Tests/Threads.antt =====
-- Threads on the small site.
use spa_server.FilePath.{parent}
use spa_server.FileSystem.{has_parent_dir}
use spa_server.FileSystem.{is_dir}
use spa_server.Base.Text.Decimal.{digits}
use spa_server.Base.Text.Decimal.{to_string}
use spa_server.FilePath.{join}
use spa_server.Base.{nat_eq, list_eq, ◌≡◌, refl, some, []}
use spa_server.Base.Dict
use spa_server.Storage.{ok, Site, uploading, get_domain_serving_version}
use spa_server.Storage.Release.{release}
use spa_server.Storage.Upload.{update_uploading_status}
use spa_server.Storage.Threads.{
  releasing, changing, released, status_set, release_check, status_read, run_threads,
}
use spa_server.Storage.Threads.Race.{between, run_threads-serves_uploading}
use spa_server.Tests.Fixtures.{crates, site, storage, domain}

-- No upload is on.
abbrev idle_site : Site
idle_site = record site { storage = record storage { uploading_status = [] } }

releases : (release crates idle_site domain 1).0 ≡ ok 1
unfolding release Dict.lookup join to_string digits
releases = refl

begins : (update_uploading_status idle_site domain 1 uploading 9).0 ≡ ok tt
unfolding update_uploading_status Dict.lookup join to_string digits is_dir has_parent_dir parent
begins = refl

run_threads-serves_uploading_example :
    let ended =
      run_threads crates 9 between
        (releasing (release_check domain 1))
        (changing (status_read domain 1 uploading))
        idle_site in
    (ended.0 ≡ releasing (released (ok 1)))
    × (ended.1 ≡ changing (status_set (ok tt)))
    × (get_domain_serving_version ended.2.storage domain ≡ some 1)
    × (Dict.lookup domain ended.2.storage.uploading_status ≡ some 1)
unfolding Dict.lookup
run_threads-serves_uploading_example =
    run_threads-serves_uploading crates 9 idle_site domain 1 refl releases begins
