-- ===== src/Tests/Storage.antt =====
-- The store of versions at the small site.
use spa_server.FilePath.{file_name}
use spa_server.Base.Text.Decimal.{parse_u32}
use spa_server.FilePath.{parent}
use spa_server.FileSystem.{has_parent_dir}
use spa_server.FileSystem.{is_dir}
use spa_server.Base.{
  ◌-◌, true, false, [], contains, ◌≡◌, refl, none, some, nat_eq, list_eq, option_eq,
}
use spa_server.Base.Dict
use spa_server.Base.Text.Decimal.{u32_mod, to_string, digits}
use spa_server.FilePath.{join}
use spa_server.Storage.{
  Site, ok, err, get_domain_serving_version, finish, uploading_now, uploading, DomainStorage,
  check_is_in_upload_process, get_upload_position, domain_versions,
}
use spa_server.Storage.Lifecycle.{upload_lifecycle}
use spa_server.Storage.Position.{get_upload_position-free}
use spa_server.Base.Text.{Text, codes}
use spa_server.FileSystem.{exists}
use spa_server.Storage.Release.{release, upload_domain_with_version}
use spa_server.Storage.Upload.{update_uploading_status}
use spa_server.Storage.Reachable.{Reach, here, next, released, status_changed}
use spa_server.Storage.Exclusive.{IsExclusive, Reach-IsExclusive}
use spa_server.Tests.Fixtures.{crates, crates-IsWalk, site, domain}

release_one : (release crates site domain 1).0 ≡ ok 1
unfolding release crates Dict.lookup join to_string digits
release_one = refl

release_two : (release crates site domain 2).0 ≡ err uploading_now
unfolding release crates Dict.lookup
release_two = refl

site-IsExclusive : IsExclusive site.storage
unfolding get_domain_serving_version Dict.lookup
site-IsExclusive = record { apart = λ d v up. λ e. cc }

abbrev served : Site
served = (upload_domain_with_version crates site domain (some 1)).1

abbrev finished : Site
finished = (update_uploading_status served domain 2 finish 9).1

history : Reach crates site (upload_domain_with_version crates finished domain none).1
history =
    next (next (next here (released domain (some 1))) (status_changed domain 2 finish 9))
      (released domain none)

Reach-IsExclusive_example :
    IsExclusive (upload_domain_with_version crates finished domain none).1.storage
Reach-IsExclusive_example = Reach-IsExclusive crates site _ history site-IsExclusive

-- Another domain, of which nothing is stored yet.
abbrev other : Text
other = codes "c.d"

other_idle : Dict.lookup other site.storage.uploading_status ≡ none
unfolding Dict.lookup list_eq nat_eq
other_idle = refl

other_begun : (update_uploading_status site other 1 uploading 9).0 ≡ ok tt
unfolding update_uploading_status Dict.lookup list_eq join to_string digits Dict.insert is_dir
    has_parent_dir parent
other_begun = refl

upload_lifecycle_example :
    let begun = (update_uploading_status site other 1 uploading 9).1 in
    let ended = update_uploading_status begun other 1 finish 10 in
    (release crates begun other 1 ≡ (err uploading_now, begun))
    × (check_is_in_upload_process begun.storage other 1 ≡ true)
    × (ended.0 ≡ ok tt)
    × (check_is_in_upload_process ended.1.storage other 1 ≡ false)
    × ((release crates ended.1 other 1).0 ≡ ok 1)
upload_lifecycle_example = upload_lifecycle crates site other 1 9 10 other_idle other_begun

-- The site once version 2 is complete.
abbrev complete : DomainStorage
complete = record site.storage { uploading_status = [] }

complete_idle : Dict.lookup domain complete.uploading_status ≡ none
unfolding Dict.lookup
complete_idle = refl

no_last :
    contains (domain_versions crates site.fs (join complete.prefix domain)) (u32_mod - 1) ≡ false
unfolding domain_versions crates join parse_u32 file_name
no_last = refl

get_upload_position-free_example :
    exists site.fs (get_upload_position crates complete site.fs domain).path ≡ false
get_upload_position-free_example =
    get_upload_position-free crates crates-IsWalk complete site.fs domain complete_idle no_last

next_is_three : (get_upload_position crates complete site.fs domain).version ≡ 3
unfolding get_upload_position Dict.lookup crates join parse_u32 file_name
next_is_three = refl
