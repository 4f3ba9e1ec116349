-- ===== src/Tests/Admin.antt =====
-- The administration's server at small data.
use spa_server.Base.Text.Decimal.{digits}
use spa_server.Base.Text.Decimal.{to_string}
use spa_server.FilePath.{join}
use spa_server.Base.{
  nat_eq, list_eq, option_eq, ◌≡◌, refl, true, some, [], ◌∷◌, ◌&&◌, ◌-◌, arith, contains, ltb,
}
use spa_server.Base.Dict
use spa_server.FilePath.{is_under}
use spa_server.Storage.{DomainInfo, get_domain_serving_version, version_path}
use spa_server.Admin.{delete_versions, remove_domain_version}
use spa_server.Admin.Removal.{
  contains-delete_versions, delete_versions_underflow, remove_domain_version-keeps_served,
}
use spa_server.Tests.Fixtures.{crates, served_site, domain, index}

abbrev info : DomainInfo
info = record { domain = domain; current_version = some 3; versions = 1 ∷ 2 ∷ 3 ∷ [] }

contains-delete_versions_example :
    contains (delete_versions info (some 1)) 1 ≡ (contains info.versions 1 && ltb 1 (3 - 1))
contains-delete_versions_example =
    contains-delete_versions info 3 1 1 refl (omega arith) (omega arith)

info_has_three : contains info.versions 3 ≡ true
unfolding nat_eq
info_has_three = refl

delete_versions_underflow_example : contains (delete_versions info (some 5)) 3 ≡ true
delete_versions_underflow_example =
    delete_versions_underflow info 3 5 refl info_has_three (omega arith) (omega arith)

serves_one : get_domain_serving_version served_site.storage domain ≡ some 1
unfolding get_domain_serving_version Dict.lookup list_eq nat_eq
serves_one = refl

index_under : is_under (version_path served_site.storage.prefix domain 1) index ≡ true
unfolding is_under version_path join to_string digits
index_under = refl

remove_domain_version-keeps_served_example :
    Dict.lookup index
      (remove_domain_version crates
        (record { domain = some domain; max_reserve = some 1 })
        served_site).1.fs
    ≡ Dict.lookup index served_site.fs
remove_domain_version-keeps_served_example =
    remove_domain_version-keeps_served crates served_site domain 1 (some 1) index serves_one
      (omega arith) (omega arith) index_under
