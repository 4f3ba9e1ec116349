-- ===== src/Tests/Restarts.antt =====
-- An upload across a restart.
use spa_server.Base.{◌∙◌, sym, ◌≡◌, ◌≢◌, refl, some, [], ◌∷◌, ◌++◌, arith}
use spa_server.Base.{nat_eq, list_eq, option_eq}
use spa_server.Base.Dict
use spa_server.Base.Text.{codes}
use spa_server.Base.Text.Decimal.{to_string, digits, parse_u32}
use spa_server.FilePath.{join}
use spa_server.FileSystem.{exists, is_dir, read_dir, has_parent_dir}
use spa_server.Storage.{Site, DomainStorage, ok, uploading}
use spa_server.Storage.Upload.{save_file, update_uploading_status}
use spa_server.Storage.Reachable.{Reach, here, next, saved, status_changed, Each}
use spa_server.Storage.Init.{init}
use spa_server.Storage.Markers.{IsMarked}
use spa_server.Storage.Markers.Steps.{IsRequest, Reach-IsMarked}
use spa_server.Storage.Markers.Again.{init_again, upload_on_disk}
use spa_server.Tests.Fixtures.{crates, storage, domain, prefix, cache}
use spa_server.Tests.Domains.{crates-IsSanitizer, domain-IsPlain}

-- An empty disk.
abbrev blank : Site
blank = record { storage = record storage { uploading_status = [] }; fs = [] }

blank-IsMarked : IsMarked blank
unfolding exists Dict.lookup
blank-IsMarked = record { marked = λ d x there. cc; fits = λ d v up. cc }

abbrev first : Site
first = (update_uploading_status blank domain 1 uploading 9).1

abbrev stopped : Site
stopped = (save_file crates first domain 1 (codes "index.html") (codes "hi") 10).1

uploads : Reach crates blank stopped
uploads =
    next (next here (status_changed domain 1 uploading 9))
      (saved domain 1 (codes "index.html") (codes "hi") 10)

uploads_typed : Each crates (IsRequest crates) uploads
unfolding uploads
uploads_typed = ((tt, (domain-IsPlain, omega arith)), (domain-IsPlain, omega arith))

Reach-IsMarked_example : IsMarked stopped
Reach-IsMarked_example =
    Reach-IsMarked crates crates-IsSanitizer blank stopped uploads uploads_typed blank-IsMarked

abbrev started : DomainStorage
started = record { meta = []; prefix = prefix; cache = cache; uploading_status = (domain, 1) ∷ [] }

start : init crates prefix cache stopped.fs ≡ ok started
unfolding init Dict.lookup save_file update_uploading_status join to_string digits has_parent_dir
    crates parse_u32
start = refl

listed :
    read_dir stopped.fs (prefix ++ domain ∷ []) ≡ some ((prefix ++ domain ∷ codes "1" ∷ []) ∷ [])
unfolding read_dir Dict.lookup save_file update_uploading_status join to_string digits Dict.insert
    has_parent_dir crates
listed = refl

prefix_named : prefix ≢ []
prefix_named e = cc

prefix_kept : stopped.storage.prefix ≡ prefix
unfolding save_file Dict.lookup update_uploading_status join to_string digits Dict.insert is_dir
    has_parent_dir
prefix_kept = refl

stopped_named : stopped.storage.prefix ≢ []
stopped_named e = prefix_named (sym prefix_kept ∙ e)

init_again_example : Dict.lookup domain started.uploading_status ≡ upload_on_disk stopped domain
unfolding crates read_dir save_file Dict.lookup update_uploading_status join to_string digits
    Dict.insert has_parent_dir
init_again_example =
    init_again crates crates-IsSanitizer blank stopped uploads cache started domain _ uploads_typed
      blank-IsMarked stopped_named refl listed start

still_on : upload_on_disk stopped domain ≡ some 1
unfolding Dict.lookup save_file update_uploading_status join to_string digits Dict.insert is_dir
    has_parent_dir crates
still_on = refl
