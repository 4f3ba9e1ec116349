-- ===== src/StaticFile/Answers.antt =====
-- server/src/static_file_filter.rs: what a client gets for the range that it asks for.
use spa_server.Base.{
  ℕ, ◌+◌, ◌-◌, ◌≤◌, ◌<◌, ◌≡◌, refl, ◌∙◌, Option, none, some, ◌∷◌, arith, nat_eq, length,
}
use spa_server.Base.{◌==◌, if◌then◌else◌}
use spa_server.Base.Text.{Text}
use spa_server.FilePath.{FilePath}
use spa_server.FileSystem.{File, FileSystem, read}
use spa_server.FileCache.{CacheItem}
use spa_server.Http.StatusCode
use spa_server.Http.{Response, included, unbounded, Range, HttpCrates}
use spa_server.StaticFile.{
  bytes_range, cache_item_to_response_header, length_header, slice, cache_reply, file_reply,
  u64_mod,
}
use spa_server.StaticFile.Ranges.{bytes_range-included, bytes_range-from, slice_all}
use spa_server.StaticFile.Bodies.{IsHonest, Streams, cache_reply-IsHonest, file_reply-IsHonest}

-- The reply carries the bytes from a position to another one, as a part or as the whole.
pub record Sends (content : Text) (start stop : ℕ) (r : Response) : Type 0 where
  pub sent : r.body ≡ slice start stop content
  pub sent_status :
      r.status
      ≡ (if stop - start == length content then StatusCode.ok else StatusCode.partial_content)

-- What is asked for is what is sent: without a range the whole file with status 200, and for a first
-- range inside the file just the bytes that it names.
pub record Answers (content : Text) (range : Option Range) (r : Response) : Type 0 where
  pub honest : IsHonest content r
  pub whole : range ≡ none → (r.status ≡ StatusCode.ok) × (r.body ≡ content)
  pub between :
      (from to : ℕ) (rest : Range)
      → range ≡ some ((included from, included to) ∷ rest)
      → from ≤ to
      → to < length content
      → length content < u64_mod
      → Sends content from (to + 1) r
  pub onward :
      (from : ℕ) (rest : Range)
      → range ≡ some ((included from, unbounded) ∷ rest)
      → from < length content
      → Sends content from (length content) r

granted_Answers :
    (content : Text) (range : Option Range) (r : Response)
    → IsHonest content r
    → ((start stop : ℕ)
        → bytes_range range (length content) ≡ some (start, stop)
        → Sends content start stop r)
    → Answers content range r
granted_Answers content range r honest sends = record {
  honest = honest;
  whole = λ e.
      let given = sends 0 (length content) (rw e (unfold bytes_range in refl)) in
      (given.sent_status ∙ (ground arith), given.sent ∙ slice_all content);
  between = λ from to rest e h k b.
      sends from (to + 1) (rw e (bytes_range-included from to (length content) rest h k b));
  onward = λ from rest e h.
      sends from (length content) (rw e (bytes_range-from from (length content) rest h));
}

cache_reply-Sends :
    (item : CacheItem) (content : Text) (range : Option Range) (modified : Option ℕ)
    (start stop : ℕ)
    → bytes_range range (length content) ≡ some (start, stop)
    → Sends content start stop (cache_reply item content range modified)
unfolding cache_reply length_header cache_item_to_response_header
cache_reply-Sends item content range modified start stop h = record {
  sent = ground (arith, h);
  sent_status = ground (arith, h);
}

pub cache_reply-Answers :
    (item : CacheItem) (content : Text) (range : Option Range) (modified : Option ℕ)
    → Answers content range (cache_reply item content range modified)
cache_reply-Answers item content range modified =
    granted_Answers content range _ (cache_reply-IsHonest item content range modified)
      (cache_reply-Sends item content range modified)

file_reply-Sends :
    (http : HttpCrates) (fs : FileSystem) (item : CacheItem) (path : FilePath)
    (range : Option Range) (modified : Option ℕ) (f : File) (start stop : ℕ)
    → Streams http
    → read fs path ≡ some f
    → item.meta.len ≡ length f.content
    → bytes_range range (length f.content) ≡ some (start, stop)
    → Sends f.content start stop (file_reply http fs item path range modified)
unfolding file_reply length_header cache_item_to_response_header
file_reply-Sends http fs item path range modified f start stop streams found same h = record {
  sent = ground (arith, found, same, h, streams f.content start stop);
  sent_status = ground (arith, found, same, h);
}

pub file_reply-Answers :
    (http : HttpCrates) (fs : FileSystem) (item : CacheItem) (path : FilePath)
    (range : Option Range) (modified : Option ℕ) (f : File)
    → Streams http
    → read fs path ≡ some f
    → item.meta.len ≡ length f.content
    → Answers f.content range (file_reply http fs item path range modified)
file_reply-Answers http fs item path range modified f streams found same =
    granted_Answers f.content range _
      (file_reply-IsHonest http fs item path range modified f streams found same)
      (λ start stop h.
        file_reply-Sends http fs item path range modified f start stop streams found same h)
