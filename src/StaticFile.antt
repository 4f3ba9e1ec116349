-- ===== src/StaticFile.antt =====
-- server/src/static_file_filter.rs: a file of the cache as a response.
pub mod Ranges
pub mod Bodies
pub mod Answers
use spa_server.Base.{
  ℕ, ◌+◌, ◌-◌, ◌%◌, Bool, true, false, not, ◌&&◌, ◌||◌, Option, none, some, List, [], ◌∷◌,
}
use spa_server.Base.{
  ◌==◌, if◌then◌else◌, ltb, leb, length, take, drop, is_empty, and_then, contains, nat_eq, list_eq,
}
use spa_server.Base.Text.{Text, codes, starts_with, split}
use spa_server.FilePath.{FilePath}
use spa_server.FileSystem.{File, FileSystem, read}
use spa_server.FileCache.{CacheItem, DataBlock, cache_block, file_block}
use spa_server.Crates.{Crates}
use spa_server.Storage.{DomainStorage, get_file}
use spa_server.Http.StatusCode
use spa_server.Http.{
  Response, new_response, default_response, not_found, HttpResult, ok, err, Bound, unbounded,
  included, excluded, Range, bytes, unsatisfied_bytes, max_age, no_cache, Conditionals, Cond,
  no_body, with_body, HttpCrates,
}

-- `u64::MAX + 1`
abbrev pub u64_mod : ℕ
u64_mod = 18446744073709551616

abbrev pub has_bad_piece : List Text → Bool
has_bad_piece [] = false
has_bad_piece (seg ∷ segs) =
    starts_with seg (codes "..") || contains seg b'\x5c' || has_bad_piece segs

unfoldable pub sanitize_path : Crates → Text → HttpResult Text
unfolding nat_eq starts_with split
sanitize_path crates tail = elim (crates.percent_decode tail) [
  | none ↦ err not_found
  | some p ↦ if has_bad_piece (split b'/' p) then err not_found else ok p
]

-- The half-open range that is to be sent; `none` is `BadRange`.
unfoldable pub range_start : Bound → ℕ
range_start unbounded = 0
range_start (included s) = s
range_start (excluded s) = (s + 1) % u64_mod

unfoldable pub range_end : Bound → ℕ → ℕ
unfolding nat_eq
range_end unbounded max_len = max_len
range_end (included s) max_len = if s == max_len then s else (s + 1) % u64_mod
range_end (excluded s) max_len = s

unfoldable pub first_range : Range → ℕ → Option (ℕ × ℕ)
unfolding range_start range_end
first_range [] max_len = some (0, max_len)
first_range ((from, to) ∷ _) max_len =
    let start = range_start from in
    let stop = range_end to max_len in
    if ltb start stop && leb stop max_len then some (start, stop) else none

unfoldable pub bytes_range : Option Range → ℕ → Option (ℕ × ℕ)
unfolding first_range
bytes_range none max_len = some (0, max_len)
bytes_range (some range) max_len = first_range range max_len

abbrev expire_header : Option ℕ → Response → Response
expire_header none r = r
expire_header (some expire) r = record r {
  cache_control = some (if ltb 0 expire then max_age expire else no_cache);
}

abbrev modified_header : Option ℕ → Response → Response
modified_header none r = r
modified_header (some modified) r = record r { last_modified = some modified }

unfoldable pub cache_item_to_response_header : Response → CacheItem → Option ℕ → Response
cache_item_to_response_header r item modified =
    modified_header modified
      (expire_header item.expire (record r { content_type = some item.mime; accept_ranges = true }))

-- The status and the headers that tell a part from the whole.
unfoldable pub length_header : Response → ℕ → ℕ → ℕ → Response
unfolding nat_eq
length_header r start stop len =
    let sub_len = stop - start in
    if not (sub_len == len)
    then record r {
      status = StatusCode.partial_content;
      content_range = some (bytes start stop len);
      content_length = some sub_len;
    }
    else record r { content_length = some len }

abbrev pub range_not_satisfiable : ℕ → Response
range_not_satisfiable len = record default_response {
  status = StatusCode.range_not_satisfiable;
  content_range = some (unsatisfied_bytes len);
}

-- `bytes.slice(start..end)`
abbrev pub slice : ℕ → ℕ → Text → Text
slice start stop s = take (stop - start) (drop start s)

unfoldable pub cache_reply : CacheItem → Text → Option Range → Option ℕ → Response
unfolding bytes_range cache_item_to_response_header length_header
cache_reply item content range modified =
    let len = length content in
    elim (bytes_range range len) [
      | none ↦ range_not_satisfiable len
      | some (start, stop) ↦
          cache_item_to_response_header
            (length_header (new_response (slice start stop content)) start stop len) item modified
    ]

abbrev gzip_header : Response → Response
gzip_header r = record r { content_encoding = some (codes "gzip") }

-- `str::contains`
unfoldable pub contains_str : Text → Text → Bool
unfolding starts_with
contains_str [] part = is_empty part
contains_str (c ∷ s) part = starts_with (c ∷ s) part || contains_str s part

abbrev pub accepts_gzip : Option Text → Bool
unfolding contains_str nat_eq
accepts_gzip none = false
accepts_gzip (some accepted) = contains_str accepted (codes "gzip")

-- The key of a path, behind its first slash.
unfoldable pub cache_key : Text → Text
unfolding nat_eq list_eq
cache_key s = if s == codes "/" || is_empty s then codes "index.html" else drop 1 s

module _ (http : HttpCrates) where
  unfoldable pub file_reply : FileSystem → CacheItem → FilePath → Option Range → Option ℕ → Response
  unfolding read bytes_range cache_item_to_response_header length_header
  file_reply fs item path range modified =
      let len = item.meta.len in
      elim (read fs path) [
        | none ↦ not_found
        | some file ↦ elim (bytes_range range len) [
          | none ↦ range_not_satisfiable len
          | some (start, stop) ↦
              length_header
                (cache_item_to_response_header
                  (new_response (http.file_stream file.content start stop)) item modified)
                start stop len
        ]
      ]

  -- The reply to a request that wants a body.
  unfoldable pub body_reply :
      FileSystem → CacheItem → DataBlock → Option Range → Option Text → Option ℕ → Response
  unfolding file_reply cache_reply accepts_gzip
  body_reply fs item (file_block path) range accept_encoding modified =
      file_reply fs item path range modified
  body_reply fs item (cache_block content compressed path) range accept_encoding modified =
      let client_accept_gzip = accepts_gzip accept_encoding in
      if not client_accept_gzip && compressed
      then file_reply fs item path range modified
      else if client_accept_gzip && compressed
      then gzip_header (cache_reply item content range modified)
      else cache_reply item content range modified

  unfoldable pub cache_or_file_reply :
      FileSystem → CacheItem → Conditionals → Option Text → Response
  unfolding body_reply
  cache_or_file_reply fs item conditionals accept_encoding =
      let modified = some item.meta.modified in
      elim (http.check conditionals modified) [
        | no_body r ↦ r
        | with_body range ↦ body_reply fs item item.block range accept_encoding modified
      ]

unfoldable pub get_cache_file : Crates → Text → Text → DomainStorage → HttpResult CacheItem
unfolding sanitize_path cache_key get_file
get_cache_file crates tail host storage = elim (sanitize_path crates tail) [
  | err r ↦ err r
  | ok s ↦ elim (get_file storage host (cache_key s)) [ none ↦ err not_found | some item ↦ ok item ]
]
