-- ===== src/Storage/Digest.antt =====
-- server/src/domain_storage.rs: `md5_file`, which the server and the client call for the digest of a
-- file. `md5` of the other modules is what it gives.
use spa_server.Base.{
  ℕ, zero, suc, ◌≤◌, ◌<◌, ◌≡◌, ◌∙◌, ap, Option, none, some, [], ◌++◌, arith, nat_eq, inl, inr,
}
use spa_server.Base.{length, take, drop, length-drop, take-append-drop, ◌⊎◌, Option-cases}
use spa_server.Base.Text.{Text}

-- `Md5`: a parameter of the model.
pub record Hasher (H : Type 0) : Type 0 where
  pub new : H
  pub update : H → Text → H
  pub finalize : H → Text

-- Bytes may be given in pieces.
pub record IsHasher {H : Type 0} (hasher : Hasher H) : Type 0 where
  pub update-nil : (h : H) → hasher.update h [] ≡ h
  pub update-append :
      (h : H) (a b : Text) → hasher.update (hasher.update h a) b ≡ hasher.update h (a ++ b)

-- `Read::read` of an open file: how many bytes come, from the number of the call, the length of the
-- buffer and what is left of the file. `none` is an error.
abbrev pub Read : Type 0
Read = ℕ → ℕ → Text → Option ℕ

-- Into a buffer that is not empty, something is read until the file ends.
pub record IsRead (read : Read) : Type 0 where
  pub within : (i size : ℕ) (rest : Text) (n : ℕ) → read i size rest ≡ some n → n ≤ length rest
  pub progress : (i size : ℕ) (rest : Text) → 0 < size → read i size rest ≡ some 0 → rest ≡ []

module _ {H : Type 0} (hasher : Hasher H) (read : Read) where
  -- The loop, on fuel: the outer `none` is that this has run out, the inner one an error.
  unfoldable pub md5_loop : ℕ → ℕ → ℕ → Text → H → Option (Option Text)
  unfolding nat_eq
  md5_loop zero i size rest h = none
  md5_loop (suc fuel) i size rest h = elim (read i size rest) [
    | none ↦ some none
    | some n ↦ elim n [
      | zero ↦ some (some (hasher.finalize h))
      | suc m ↦ md5_loop fuel (suc i) size (drop (suc m) rest) (hasher.update h (take (suc m) rest))
    ]
  ]

  -- `md5_file`, from the file if it can be opened and the length of the buffer.
  unfoldable pub md5_file : Option Text → ℕ → Option (Option Text)
  unfolding md5_loop
  md5_file none size = some none
  md5_file (some content) size = md5_loop (suc (length content)) 0 size content hasher.new

  module _ (reads : IsRead read) (hashes : IsHasher hasher) where
    -- The digest of the whole, or an error of one of the reads.
    abbrev Digested : ℕ → Option (Option Text) → H → Text → Type 0
    Digested size r h rest =
        (r ≡ some (some (hasher.finalize (hasher.update h rest))))
        ⊎ ((i : ℕ) × (t : Text) × (read i size t ≡ none) × (r ≡ some none))

    md5_loop-Digested :
        (fuel i size : ℕ) (rest : Text) (h : H)
        → 0 < size
        → length rest < fuel
        → Digested size (md5_loop fuel i size rest h) h rest
    unfolding md5_loop
    md5_loop-Digested zero i size rest h buffer enough = absurd (omega (arith, enough))
    md5_loop-Digested (suc fuel) i size rest h buffer enough =
        elim (Option-cases (read i size rest)) [
          | inl failed ↦ inr (i, rest, failed, rw (failed, md5_loop))
          | inr (zero, ended) ↦
              inl
                (rw (ended, md5_loop, reads.progress i size rest buffer ended, hashes.update-nil h))
          | inr (suc m, more) ↦
              let front : Text = take (suc m) rest in
              let back : Text = drop (suc m) rest in
              let whole : hasher.update (hasher.update h front) back ≡ hasher.update h rest =
                hashes.update-append h front back
                ∙ ap (λ (t : Text). hasher.update h t) (take-append-drop (suc m) rest) in
              let shorter : length back < fuel =
                omega (
                  arith,
                  length-drop (suc m) rest,
                  enough,
                  reads.within i size rest (suc m) more,
                ) in
              rw (more, md5_loop, ← whole)
                (md5_loop-Digested fuel (suc i) size back (hasher.update h front) buffer shorter)
        ]

    -- For a file that can be opened and a buffer that is not empty, the loop ends, in whatever pieces
    -- the file is read: with the digest of its whole content, or, if one of the reads is an error,
    -- with no digest. It is given that a read gives no more than is left of the file and nothing only
    -- at its end, and that the digest may be given its bytes in pieces.
    pub md5_file-Digested :
        (content : Text) (size : ℕ)
        → 0 < size
        → (md5_file (some content) size
            ≡ some (some (hasher.finalize (hasher.update hasher.new content))))
          ⊎ ((i : ℕ) × (t : Text) × (read i size t ≡ none)
              × (md5_file (some content) size ≡ some none))
    unfolding md5_file
    md5_file-Digested content size buffer =
        md5_loop-Digested (suc (length content)) 0 size content hasher.new buffer (omega arith)
