-- ===== src/Client/Commands/Release.antt =====
-- client/src/lib.rs and server/src/admin_server.rs: the command `release` against a server.
use spa_server.Base.{ℕ, some, ◌++◌}
use spa_server.Base.Text.{Text, codes}
use spa_server.Base.Text.Decimal.{to_string}
use spa_server.FilePath.{FilePath}
use spa_server.Crates.{Crates}
use spa_server.Storage.{Result, ok, err}
use spa_server.Admin.{empty}
use spa_server.Client.Calls.{refused}
use spa_server.Client.Calls
use spa_server.Client.Config
use spa_server.Client.Wire.{ReplyCrates}
use spa_server.Client.Commands.{Outcome, success, failure, api_error}

-- What the command ends with, for the result of the storage's release.
abbrev pub release_outcome : ReplyCrates → Text → Result ℕ → Outcome
release_outcome replies d (ok v) =
    success (some (codes "domain:" ++ d ++ codes " has changed to " ++ to_string v))
release_outcome replies d (err e) = failure (api_error (refused (replies.text_of empty)))
