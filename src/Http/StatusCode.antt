-- ===== src/Http/StatusCode.antt =====
-- The status codes that the server sends.
use spa_server.Base.{ℕ}

abbrev pub ok : ℕ
ok = 200

abbrev pub partial_content : ℕ
partial_content = 206

abbrev pub moved_permanently : ℕ
moved_permanently = 301

abbrev pub bad_request : ℕ
bad_request = 400

abbrev pub forbidden : ℕ
forbidden = 403

abbrev pub not_found : ℕ
not_found = 404

abbrev pub range_not_satisfiable : ℕ
range_not_satisfiable = 416
