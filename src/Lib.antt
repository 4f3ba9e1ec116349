-- ===== src/Lib.antt =====
-- A model of spa-server, a server of single-page applications that keeps several versions of each
-- domain, with its administration and the client that uploads to it.
--
-- The parts. `Storage` (server/src/domain_storage.rs) keeps the versions of each domain on disk, the
-- uploads that are on, and the version served. A release puts the files of a version into the cache,
-- `FileCache` (server/src/file_cache.rs). A request goes through `Service` (server/src/service.rs):
-- the check of its origin, `Cors` (server/src/cors.rs), a redirection, and the reply with a file
-- from memory or disk, `StaticFile` (server/src/static_file_filter.rs). `Admin`
-- (server/src/admin_server.rs) has the handlers and the routes by which versions are uploaded,
-- released and deleted. `HotReload` (server/src/hot_reload.rs) and `Server` (server/src/lib.rs,
-- server/src/server.rs) start the servers and exchange them. `Config` (server/src/config.rs) has the
-- settings. `Client` (client/src/api.rs) has the client's requests and `Client.Upload`
-- (client/src/upload_files.rs) the upload of a directory; `Client.Direct` joins it to the storage.
-- `Client.Calls` has what the requests return, `Client.Wire` joins them to the routes,
-- `Client.Config` (client/src/config.rs) has the client's settings, and `Client.Commands`
-- (client/src/lib.rs, client/src/commands.rs) its commands. `Tls` (server/src/tls.rs) has the
-- certificates of https and its streams. `Server.Sockets` (server/src/server.rs) starts the
-- servers on their ports, and `Server.Requests` carries out the administration's requests one after
-- another, with `Config::load` (server/src/config.rs) where they reload. `Storage.Threads` runs two
-- methods of the storage at once. `Storage.Reachable` has the requests to the storage as steps:
-- `Storage.Exclusive`, `Storage.Served`, `Storage.Isolation`, `Storage.Markers` and
-- `Storage.Stranded` are about the states that they reach, and `Admin.Routes.Steps` joins the routes to them. `Storage.Digest` has
-- `md5_file` (server/src/domain_storage.rs).
--
-- The correspondence. A function has the name of the source's, a struct is a record, an enum a data
-- type. A method that changes something takes the state and returns the new one beside its result,
-- also where it fails. `Site` is a storage with the disk below it, `System` the servers that run and
-- the storages that they share, which are told apart by numbers. The disk, `FileSystem`, is a map
-- from paths to files and directories; `FilePath` is a list of components, and texts are lists of
-- bytes. The time of a call is an argument. A reply in JSON is the value that it prints, and the text
-- of an error is left out.
--
-- Parameters. `Crates`, `HttpCrates`, `AdminCrates` and `ClientCrates` stand for the crates that the
-- program calls: walks over directories, digests, compression, guesses of MIME types, the reading of
-- headers, forms and JSON, `warp::fs::sanitize_path` and `warp::fs::Conditionals`. What is asked of
-- them stands as a hypothesis where it is used: `IsWalk`, that a walk yields what lies below its
-- root, `Streams`, that a stream sends the bytes asked for, `ChecksNoOrigin`, `IsSni`, that the names
-- of certificates are a map, `IsSanitizer`, that a path is sanitized to one below its base, `IsRead`
-- and `IsHasher`, that a file is read to its end and digested in pieces, and `Decodes`, that each side
-- reads what the other one wrote.
-- `TlsCrates` and `StreamCrates` are rustls, `NetCrates` sockets, `ConfigCrates`
-- and `Loader` are hocon, `Hasher` is Md5, and `AnswerCrates` and `ReplyCrates` what reads and prints the replies.
--
-- Bounds. Versions are `u32` and byte positions `u64`; sums and differences that can leave them are
-- written with `%`. Every loop is a recursion over a list, and the three attempts of a transfer
-- count down from 3; only the loop of `md5_file` is on fuel, one more than the file has bytes, which is
-- enough since each read but the last takes one at least. The https port is an `i32` and stands as a
-- natural number, on whose sign nothing rests; how long a client may keep a file is in whole seconds,
-- so a time below one second counts as none.
--
-- Left out. A method is one step, but in `Storage.Threads`. Paths are valid UTF-8. File system calls
-- fail for reasons that lie in the tree, not for permissions or full disks, and paths are compared by
-- their components: ".." is a name like another, which is why names are asked to be none where that
-- matters. The accept loops of hyper, the reading of arguments by `clap`, the binding of the
-- administration's port and the JavaScript package (jsclient) are not modelled. The client's
-- transfers are made one after another, and so are the requests to the administration.
--
-- `Base` has what the parts share, and `Tests` runs the model at a small site.
pub mod Base
pub mod FilePath
pub mod FileSystem
pub mod Config
pub mod Crates
pub mod FileCache
pub mod Storage
pub mod Http
pub mod StaticFile
pub mod Cors
pub mod Service
pub mod Admin
pub mod Tests
pub mod Client
pub mod HotReload
pub mod Server
pub mod Tls
