-- ===== src/Tests/Commands.antt =====
-- The command line against the small site, over crates that agree.
use spa_server.Base.Text.Decimal.{digits}
use spa_server.Base.Text.Decimal.{to_string}
use spa_server.Base.{◌≡◌, refl, none, some, [], nat_eq, list_eq, Option, or, arith}
use spa_server.Base.{◌==◌, if◌then◌else◌}
use spa_server.Base.Text.{Text, codes}
use spa_server.Storage.{finish}
use spa_server.Client.Config.{ClientConfig, ConfigCrates, Hocon, load, load_hocon, ok}
use spa_server.Client.Direct.{server_api}
use spa_server.Client.Wire.Agrees.{wire, api-agrees}
use spa_server.Client.Commands.{Machine}
use spa_server.Admin.{UpdateUploadingStatusOption}
use spa_server.Tests.Fixtures.{crates, site, domain}
use spa_server.Tests.Client.{admin_conf}
use spa_server.Tests.Encoding.{admin, replies, client, reads, encodings-Decodes}

-- The file has an address, and a number of transfers that is none; the environment has the token and
-- a number.
unfoldable pub hocon : Hocon
unfolding nat_eq list_eq
hocon group name =
    if name == codes "address"
    then some (codes "http://s")
    else if name == codes "parallel"
    then some (codes "x")
    else none

unfoldable pub env_opt : Text → Option Text
unfolding nat_eq list_eq
env_opt variable =
    if variable == codes "SPA_SERVER_AUTH_TOKEN"
    then some (codes "secret")
    else if variable == codes "SPA_UPLOAD_PARALLEL"
    then some (codes "4")
    else none

abbrev pub config_crates : ConfigCrates
config_crates = record { load_file = λ path. none; no_file = some hocon }

abbrev pub client_config : ClientConfig
client_config = record {
  server = record { address = codes "http://s"; auth_token = codes "secret" };
  upload = record { parallel = 3 };
}

hocon_read : load_hocon config_crates none ≡ some hocon
unfolding load_hocon
hocon_read = refl

address_read :
    or (hocon (codes "server") (codes "address")) (env_opt (codes "SPA_SERVER_ADDRESS"))
    ≡ some (codes "http://s")
unfolding hocon
address_read = refl

token_read :
    or (hocon (codes "server") (codes "auth_token")) (env_opt (codes "SPA_SERVER_AUTH_TOKEN"))
    ≡ some (codes "secret")
unfolding hocon env_opt
token_read = refl

abbrev pub machine : Machine
machine = record {
  config_crates = config_crates;
  env_opt = env_opt;
  canonicalize = some;
  fs = [];
  walk = crates.walk;
  md5 = crates.md5;
}

pub loaded : load config_crates env_opt none ≡ ok client_config
unfolding load hocon env_opt
loaded = refl

abbrev finished : UpdateUploadingStatusOption
finished = record { domain = domain; version = 2; status = finish }

api-agrees_example :
    let server = server_api crates 9 in
    let client_api = wire crates admin replies client reads admin_conf 9 in
    (client_api.get_upload_position domain site ≡ server.get_upload_position domain site)
    × (client_api.get_file_metadata domain 2 site ≡ server.get_file_metadata domain 2 site)
    × (client_api.change_uploading_status finished site
        ≡ server.change_uploading_status finished site)
    × (client_api.upload_file domain 2 (codes "x.js") (codes "code") site
        ≡ server.upload_file domain 2 (codes "x.js") (codes "code") site)
unfolding to_string digits
api-agrees_example =
    api-agrees crates admin replies client reads admin_conf 9 encodings-Decodes finished domain
      (codes "x.js") (codes "code") 2 site (omega arith) refl refl (omega arith) (omega arith)
