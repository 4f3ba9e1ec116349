-- ===== src/Tests/Domains.antt =====
-- Two domains beside each other, and the removal of an upload.
use spa_server.Base.{true}
use spa_server.Storage.{err, io_error}
use spa_server.Storage.Stranded.{IsNoTransfer, remove_domain_version-strands}
use spa_server.Base.{◌≡◌, ◌≢◌, refl, none, some, [], arith}
use spa_server.Base.{nat_eq, list_eq, option_eq, some-injective}
use spa_server.Base.Dict
use spa_server.Base.{false}
use spa_server.Http.{Request}
use spa_server.Service.{ServiceConfig, authority_of, create_service}
use spa_server.Service.Isolated.{create_service-isolated}
use spa_server.Storage.Release.{release}
use spa_server.Tests.Fixtures.{crates-IsWalk, http}
use spa_server.Base.Text.{Text, codes}
use spa_server.Base.Text.Decimal.{to_string, digits}
use spa_server.FilePath.{components, join, is_piece}
use spa_server.FilePath.Names.{is_under-append}
use spa_server.FileSystem.{is_dir}
use spa_server.Storage.{Site, ok, uploading, finish}
use spa_server.Storage.Frames.{IsSanitizer}
use spa_server.Storage.Upload.{save_file, update_uploading_status, remove_domain_version}
use spa_server.Storage.Release.{upload_domain_with_version}
use spa_server.Storage.Reachable.{Reach, here, next, released, saved, status_changed, removed, Each}
use spa_server.Storage.Isolation.{IsPlain, IsOther, Untouched, Reach-Untouched}
use spa_server.Tests.Fixtures.{crates, site, domain}

pub crates-IsSanitizer : IsSanitizer crates
unfolding crates
crates-IsSanitizer = record {
  below = λ base path key h. rw (← some-injective _ _ h) (is_under-append base (components key));
}

abbrev guest : Text
guest = codes "c.d"

guest-IsPlain : IsPlain guest
unfolding is_piece
guest-IsPlain = ((refl, omega arith), λ e. cc)

pub domain-IsPlain : IsPlain domain
unfolding is_piece
domain-IsPlain = ((refl, omega arith), λ e. cc)

domain_ne_guest : domain ≢ guest
domain_ne_guest e = ground (arith, e)

-- The guest uploads, releases and removes a version.
abbrev begun : Site
begun = (update_uploading_status site guest 1 uploading 9).1

abbrev sent : Site
sent = (save_file crates begun guest 1 (codes "index.html") (codes "hi") 10).1

abbrev ended : Site
ended = (update_uploading_status sent guest 1 finish 11).1

abbrev shown : Site
shown = (upload_domain_with_version crates ended guest none).1

abbrev gone : Site
gone = (remove_domain_version shown guest (some 1)).1

history : Reach crates site gone
history =
    next
      (next
        (next
          (next (next here (status_changed guest 1 uploading 9))
            (saved guest 1 (codes "index.html") (codes "hi") 10))
          (status_changed guest 1 finish 11))
        (released guest none))
      (removed guest (some 1))

history_of_guest : Each crates (IsOther crates domain) history
unfolding history
history_of_guest = (
  (
    (
      ((tt, (guest-IsPlain, domain_ne_guest)), (guest-IsPlain, domain_ne_guest)),
      (guest-IsPlain, domain_ne_guest),
    ),
    (guest-IsPlain, domain_ne_guest),
  ),
  (guest-IsPlain, domain_ne_guest),
)

Reach-Untouched_example : Untouched domain site gone
Reach-Untouched_example =
    Reach-Untouched crates crates-IsSanitizer domain site gone history domain-IsPlain
      history_of_guest

-- Version 1 is released, and then the guest uploads and goes.
abbrev opened : Site
opened = (release crates site domain 1).1

abbrev visited : Site
visited = (update_uploading_status opened guest 1 uploading 9).1

abbrev left_again : Site
left_again = (remove_domain_version visited guest none).1

visit : Reach crates opened left_again
visit = next (next here (status_changed guest 1 uploading 9)) (removed guest none)

visit_of_guest : Each crates (IsOther crates domain) visit
unfolding visit
visit_of_guest = ((tt, (guest-IsPlain, domain_ne_guest)), (guest-IsPlain, domain_ne_guest))

opened_ok : (release crates site domain 1).0 ≡ ok 1
unfolding release crates Dict.lookup join to_string digits
opened_ok = refl

abbrev settings : ServiceConfig
settings = record { default = record { cors = false; http_redirect_to_https = false }; inner = [] }

abbrev request : Request
request = record {
  method = codes "GET";
  uri = record { scheme = none; authority = some domain; path = codes "/"; text = codes "/" };
  headers = [];
}

request_host : authority_of http request ≡ some domain
unfolding authority_of
request_host = refl

create_service-isolated_example :
    create_service crates http left_again.fs left_again.storage settings request
    ≡ create_service crates http opened.fs opened.storage settings request
unfolding http
create_service-isolated_example =
    create_service-isolated crates http crates-IsWalk crates-IsSanitizer site left_again domain 1
      visit settings request domain opened_ok domain-IsPlain visit_of_guest request_host refl

-- The version that is being uploaded is removed, and its upload is to be ended.
abbrev stranded : Site
stranded = (remove_domain_version site domain (some 2)).1

abbrev asked : Site
asked = (update_uploading_status stranded domain 2 finish 9).1

asking : Reach crates stranded asked
asking = next here (status_changed domain 2 finish 9)

asking_plain : Each crates (IsNoTransfer crates domain) asking
unfolding asking
asking_plain = (tt, (domain-IsPlain, tt))

site_uploads : Dict.lookup domain site.storage.uploading_status ≡ some 2
unfolding Dict.lookup list_eq nat_eq
site_uploads = refl

removed_ok : (remove_domain_version site domain (some 2)).0 ≡ ok true
unfolding remove_domain_version Dict.lookup list_eq join to_string digits is_dir
removed_ok = refl

remove_domain_version-strands_example :
    (Dict.lookup domain asked.storage.uploading_status ≡ some 2)
    × ((update_uploading_status asked domain 2 finish 10).0 ≡ err io_error)
remove_domain_version-strands_example =
    remove_domain_version-strands crates crates-IsSanitizer site asked domain 2 10 asking
      domain-IsPlain site_uploads removed_ok asking_plain
