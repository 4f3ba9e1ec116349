-- ===== src/Tests/Requests.antt =====
-- Requests to the administration's API of a server with an https port.
use spa_server.FilePath.{parent}
use spa_server.FileSystem.{has_parent_dir}
use spa_server.Base.Text.Decimal.{to_string}
use spa_server.Server.{started}
use spa_server.Base.Text.Decimal.{digits}
use spa_server.Base.{
  ◌≡◌, refl, true, false, none, some, List, [], ◌∷◌, ◌++◌, All, nat_eq, list_eq, option_eq,
}
use spa_server.Base.{length}
use spa_server.Base.Dict
use spa_server.Base.Text.{Text, codes, starts_with}
use spa_server.Config.{Config}
use spa_server.FilePath.{slash, components, join}
use spa_server.FileSystem.{is_dir, exists}
use spa_server.Storage.{uploading, uploading_file_name}
use spa_server.Http.StatusCode
use spa_server.Admin.{change_upload_status}
use spa_server.Admin.Escapes.{change_upload_status-escapes}
use spa_server.Admin.Routes.{AdminRequest, auth}
use spa_server.Server.Requests.{Loader, Call, admin_requests}
use spa_server.Server.Requests.Sound.{IsSound, admin_requests-IsSound}
use spa_server.Server.Requests.Refused.{admin_requests-unauthorized}
use spa_server.Tests.Fixtures.{crates, site, disk, domain}
use spa_server.Tests.Encoding.{admin}
use spa_server.Tests.Server.{admin_config}
use spa_server.Tests.Outage.{secure, sys, starts}

abbrev posted : Text → List Text → Text → AdminRequest
posted token path body = record {
  method = codes "POST";
  path = path;
  query = [];
  headers = (codes "authorization", codes "Bearer " ++ token) ∷ [];
  content_length = some (length body);
  body = body;
}

abbrev status_path : List Text
status_path = codes "files" ∷ codes "upload_status" ∷ []

-- The end of the upload of version 2.
abbrev ending : AdminRequest
ending = posted admin_config.token status_path (2 ∷ 1 ∷ domain)

abbrev loader : Loader Config
loader = record { spa_config = none; load_file = λ path. some secure; resolve = some }

abbrev calls : List (Call Config)
calls =
    record { request = ending; now = 9; loader = loader }
    ∷ record {
      request = posted admin_config.token (codes "reload" ∷ []) [];
      now = 10;
      loader = loader;
    }
    ∷ []

admin_requests-IsSound_example : IsSound (admin_requests crates admin calls sys)
admin_requests-IsSound_example =
    admin_requests-IsSound crates admin secure admin_config disk sys calls starts

-- Requests with the wrong token.
abbrev forged : List (Call Config)
forged =
    record {
      request = posted (codes "guess") status_path (2 ∷ 1 ∷ domain);
      now = 9;
      loader = loader;
    }
    ∷ record { request = posted [] (codes "reload" ∷ []) []; now = 10; loader = loader }
    ∷ []

forged_refused : All (λ (call : Call Config). auth sys.admin_config call.request ≡ false) forged
unfolding auth started
forged_refused = (refl, (refl, tt))

admin_requests-unauthorized_example : admin_requests crates admin forged sys ≡ sys
admin_requests-unauthorized_example =
    admin_requests-unauthorized crates admin sys forged forged_refused

-- A domain that is an absolute path.
abbrev absolute : Text
absolute = codes "/etc"

absolute_idle : Dict.lookup absolute site.storage.uploading_status ≡ none
unfolding Dict.lookup list_eq nat_eq
absolute_idle = refl

absolute_begins : starts_with absolute slash ≡ true
unfolding starts_with nat_eq
absolute_begins = refl

absolute_begun :
    (change_upload_status
      (record { domain = absolute; version = 1; status = uploading })
      9
      site).0.status
    ≡ StatusCode.ok
unfolding change_upload_status Dict.lookup list_eq join to_string digits Dict.insert is_dir
    has_parent_dir parent
absolute_begun = refl

change_upload_status-escapes_example :
    exists
      (change_upload_status
        (record { domain = absolute; version = 1; status = uploading })
        9
        site).1.fs
      (slash ∷ codes "etc" ∷ codes "1" ∷ uploading_file_name ∷ [])
    ≡ true
unfolding components to_string digits
change_upload_status-escapes_example =
    change_upload_status-escapes site absolute 1 9 absolute_begins absolute_idle absolute_begun
