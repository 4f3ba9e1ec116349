-- ===== src/Tests/Keys.antt =====
-- A directory /l with the files x and l/x.
use spa_server.FileSystem.{read}
use spa_server.Base.{◌≡◌, ◌≢◌, refl, some, [], ◌∷◌, nat_eq, list_eq}
use spa_server.Base.Dict
use spa_server.Base.Text.{codes}
use spa_server.FilePath.{FilePath, slash, to_str}
use spa_server.FileSystem.{file, FileSystem}
use spa_server.Client.Upload.{uploading_entry}
use spa_server.Base.{List}
use spa_server.Base.Text.{Text}
use spa_server.Client.Direct.{server_api}
use spa_server.Client.Upload.{upload_all}
use spa_server.Client.Upload.Attempts.{Attempts, counted, upload_all-Attempts}
use spa_server.Client.Upload.Keys.{uploading_entry_collide}
use spa_server.Tests.Fixtures.{crates, page, site, domain}

abbrev root : FilePath
root = slash ∷ codes "l" ∷ []

abbrev upper : FilePath
upper = slash ∷ codes "l" ∷ codes "x" ∷ []

abbrev lower : FilePath
lower = slash ∷ codes "l" ∷ codes "l" ∷ codes "x" ∷ []

abbrev local : FileSystem
local = (upper, file page) ∷ (lower, file page) ∷ []

upper_sent :
    uploading_entry crates.walk crates.md5 local (to_str root) [] upper ≡ some (codes "/x", upper)
unfolding uploading_entry read Dict.lookup to_str
upper_sent = refl

lower_sent :
    uploading_entry crates.walk crates.md5 local (to_str root) [] lower ≡ some (codes "/x", lower)
unfolding uploading_entry read Dict.lookup to_str
lower_sent = refl

root_named : codes "l" ∷ [] ≢ []
root_named e = cc

uploading_entry_collide_example : codes "/x" ≡ codes "/x"
unfolding list_eq nat_eq
uploading_entry_collide_example =
    uploading_entry_collide crates.walk crates.md5 local [] (codes "l" ∷ []) (codes "x" ∷ []) upper
      lower (codes "/x") (codes "/x") root_named (refl, tt) (refl, tt) upper_sent lower_sent

abbrev files : List (Text × FilePath)
files = (codes "/x", upper) ∷ (codes "/x", lower) ∷ []

upload_all-Attempts_example :
    Attempts
      (server_api crates 9)
      (List Text)
      6
      0
      (upload_all (counted (server_api crates 9)) local domain 2 files (site, 0))
      (upload_all (server_api crates 9) local domain 2 files site)
upload_all-Attempts_example = upload_all-Attempts (server_api crates 9) local domain 2 files site 0
