-- ===== src/Crates.antt =====
-- What the program takes from other crates: parameters of the model, with no definition here.
use spa_server.Base.{Bool, Option}
use spa_server.Base.Text.{Text}
use spa_server.FilePath.{FilePath}
use spa_server.FileSystem.WalkDir.{Walk}

pub record Crates : Type 0 where
  -- `walkdir`
  pub walk : Walk
  -- `URI_REGEX.is_match`, of `regex`
  pub is_uri : Text → Bool
  -- `mime_guess::from_path(path).first_or_octet_stream()`
  pub guess_mime : FilePath → Text
  -- `GzEncoder` of `flate2`
  pub gzip : Text → Text
  -- `Md5` in hexadecimal digits
  pub md5 : Text → Text
  -- `warp::fs::sanitize_path`: `None` for its error
  pub sanitize_path : FilePath → Text → Option FilePath
  -- `percent_decode_str(tail).decode_utf8()`: `None` where the bytes are no UTF-8
  pub percent_decode : Text → Option Text
