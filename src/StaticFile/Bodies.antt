-- ===== src/StaticFile/Bodies.antt =====
-- server/src/static_file_filter.rs: the body that a reply carries, and what its headers say of it.
use spa_server.Base.{
  ℕ, ◌+◌, ◌-◌, ◌≤◌, ◌<◌, ◌≡◌, ◌≢◌, refl, inl, inr, Option, some, [], ◌∷◌, ◌++◌, ◌∙◌, arith, nat_eq,
  length,
}
use spa_server.Base.{Bool-cases, Option-cases, ◌==◌, drop, take-append-drop, take_all, length-drop}
use spa_server.Base.Text.{Text}
use spa_server.FilePath.{FilePath}
use spa_server.FileSystem.{File, FileSystem, read}
use spa_server.FileCache.{CacheItem}
use spa_server.Http.StatusCode
use spa_server.Http.{Response, new_response, included, unbounded, Range, bytes, HttpCrates}
use spa_server.StaticFile.{
  bytes_range, cache_item_to_response_header, length_header, slice, cache_reply, file_reply,
  range_not_satisfiable, u64_mod,
}
use spa_server.StaticFile.Ranges.{
  bytes_range_bounds, bytes_range-included, bytes_range-from, length-slice, slice_whole,
}

-- The reply sends what it says that it sends of a file.
pub record IsHonest (content : Text) (r : Response) : Type 0 where
  pub whole : r.status ≡ StatusCode.ok → r.body ≡ content
  pub part :
      r.status ≡ StatusCode.partial_content
      → (start : ℕ) × (stop : ℕ) × (start ≤ stop)
        × (stop ≤ length content)
        × (r.content_range ≡ some (bytes start stop (length content)))
        × (r.body ≡ slice start stop content)
  pub sized : r.status ≢ StatusCode.range_not_satisfiable → r.content_length ≡ some (length r.body)

sent_IsHonest :
    (content : Text) (r : Response) (start stop : ℕ)
    → start ≤ stop
    → stop ≤ length content
    → r.status ≡ StatusCode.ok
    → r.body ≡ slice start stop content
    → IsHonest content (length_header r start stop (length content))
unfolding length_header
sent_IsHonest content r start stop h k ok body =
    elim (Bool-cases (stop - start == length content)) [
      | inl same ↦ record {
        whole = λ e. ground (arith, slice_whole start stop content h k (ground arith));
        part = λ e. ground arith;
        sized = λ e. ground (arith, length-slice start stop content);
      }
      | inr other ↦ record {
        whole = λ e. ground arith;
        part = λ e. (start, stop, h, k, ground arith, ground arith);
        sized = λ e. ground (arith, length-slice start stop content);
      }
    ]

-- The headers of the item leave the rest of a reply alone.
headers-IsHonest :
    (content : Text) (r : Response) (item : CacheItem) (modified : Option ℕ)
    → IsHonest content r
    → IsHonest content (cache_item_to_response_header r item modified)
unfolding cache_item_to_response_header
headers-IsHonest content r item modified v = record {
  whole = λ e. ground (arith, v.whole (ground arith));
  part = λ e.
      let (start, stop, a, b, range, body) = v.part (ground arith) in
      (start, stop, a, b, ground arith, ground arith);
  sized = λ e. ground (arith, v.sized (λ k. ground arith));
}

refused-IsHonest : (content : Text) (len : ℕ) → IsHonest content (range_not_satisfiable len)
refused-IsHonest content len = record {
  whole = λ e. absurd (omega arith);
  part = λ e. absurd (omega arith);
  sized = λ e. absurd (e refl);
}

-- Whatever range is asked for, a reply from memory is honest about the bytes that are cached: with
-- status 200 it carries all of them, with 206 the slice that its Content-Range names, which lies
-- within them, and unless the range is refused with 416 its Content-Length is its body's.
pub cache_reply-IsHonest :
    (item : CacheItem) (content : Text) (range : Option Range) (modified : Option ℕ)
    → IsHonest content (cache_reply item content range modified)
unfolding cache_reply
cache_reply-IsHonest item content range modified =
    elim (Option-cases (bytes_range range (length content))) [
      | inl bad ↦ rw (bad, cache_reply) (refused-IsHonest content (length content))
      | inr ((start, stop), granted) ↦
          let (h, k) = bytes_range_bounds range (length content) start stop granted in
          rw (granted, cache_reply)
            (headers-IsHonest content _ item modified (
              sent_IsHonest content (new_response (slice start stop content)) start stop h k refl
                refl))
    ]

cache_reply-body :
    (item : CacheItem) (content : Text) (range : Option Range) (modified : Option ℕ)
    (start stop : ℕ)
    → bytes_range range (length content) ≡ some (start, stop)
    → (cache_reply item content range modified).body ≡ slice start stop content
unfolding cache_reply length_header cache_item_to_response_header
cache_reply-body item content range modified start stop h = rw (h, cache_reply) (ground arith)

-- For every position inside the cached bytes: the body of the reply to the range up to that
-- position, followed by the body of the reply to the range from it on, is the whole.
pub cache_reply_split :
    (item : CacheItem) (content : Text) (k : ℕ) (modified later : Option ℕ)
    → 0 < k
    → k < length content
    → length content < u64_mod
    → (cache_reply item content (some ((included 0, included (k - 1)) ∷ [])) modified).body
        ++ (cache_reply item content (some ((included k, unbounded) ∷ [])) later).body
      ≡ content
cache_reply_split item content k modified later pos less fits =
    let last : k - 1 + 1 ≡ k = omega arith in
    let all : k - 0 ≡ k = omega arith in
    rw
      (
        cache_reply-body item content _ modified 0 (k - 1 + 1)
            (bytes_range-included 0 (k - 1) (length content) [] (omega arith) (omega arith) fits),
        cache_reply-body item content _ later k (length content)
            (bytes_range-from k (length content) [] less),
        last,
        all,
        take_all (length content - k) (drop k content) (omega (arith, length-drop k content)),
      )
      (take-append-drop k content)

-- `file_stream` yields the bytes of the file from the first position to the second.
abbrev pub Streams : HttpCrates → Type 0
Streams http =
    (content : Text) (start stop : ℕ)
    → http.file_stream content start stop ≡ slice start stop content

file_reply-eq :
    (http : HttpCrates) (fs : FileSystem) (item : CacheItem) (path : FilePath)
    (range : Option Range) (modified : Option ℕ) (f : File) (start stop : ℕ)
    → read fs path ≡ some f
    → bytes_range range item.meta.len ≡ some (start, stop)
    → file_reply http fs item path range modified
      ≡ length_header
          (cache_item_to_response_header
            (new_response (http.file_stream f.content start stop))
            item
            modified)
          start
          stop
          item.meta.len
unfolding file_reply
file_reply-eq http fs item path range modified f start stop found granted =
    rw (found, granted, file_reply)

headers-body :
    (r : Response) (item : CacheItem) (modified : Option ℕ)
    → ((cache_item_to_response_header r item modified).body ≡ r.body)
      × ((cache_item_to_response_header r item modified).status ≡ r.status)
unfolding cache_item_to_response_header
headers-body r item modified = ground arith

-- While the file on disk has the length that the cache noted, a reply from disk is as honest about
-- it, whatever range is asked for.
pub file_reply-IsHonest :
    (http : HttpCrates) (fs : FileSystem) (item : CacheItem) (path : FilePath)
    (range : Option Range) (modified : Option ℕ) (f : File)
    → Streams http
    → read fs path ≡ some f
    → item.meta.len ≡ length f.content
    → IsHonest f.content (file_reply http fs item path range modified)
unfolding cache_item_to_response_header
file_reply-IsHonest http fs item path range modified f streams found same =
    elim (Option-cases (bytes_range range item.meta.len)) [
      | inl bad ↦
          unfold file_reply in
          rw (found, bad, file_reply) (refused-IsHonest f.content item.meta.len)
      | inr ((start, stop), granted) ↦
          let (h, k) = bytes_range_bounds range item.meta.len start stop granted in
          let (body, status) =
            headers-body (new_response (http.file_stream f.content start stop)) item modified in
          rw (file_reply-eq http fs item path range modified f start stop found granted, same)
            (sent_IsHonest f.content _ start stop h (omega arith) status
              (body ∙ streams f.content start stop))
    ]
