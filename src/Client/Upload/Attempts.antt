-- ===== src/Client/Upload/Attempts.antt =====
-- client/src/upload_files.rs: how often the files of an upload are sent.
use spa_server.Base.{
  ℕ, zero, suc, ◌+◌, ◌*◌, ◌≤◌, ◌≡◌, refl, Bool, Option, none, some, List, [], ◌∷◌, arith,
}
use spa_server.Base.{subst, sym, length, Bool-cases, inl, inr}
use spa_server.Base.Text.{Text}
use spa_server.FilePath.{FilePath}
use spa_server.FileSystem.{File, FileSystem, read}
use spa_server.Client.Upload.{Api, retry_upload, upload_all}

module _ {S : Type 0} (api : Api S) where
  abbrev keep {ℓ} : {A : Type ℓ} → ℕ → A × S → A × (S × ℕ)
  keep n (a, s) = (a, (s, n))

  -- The same server, with a count of the transfers that reach it.
  abbrev pub counted : Api (S × ℕ)
  counted = record {
    get_upload_position = λ d s. keep s.1 (api.get_upload_position d s.0);
    get_file_metadata = λ d v s. keep s.1 (api.get_file_metadata d v s.0);
    change_uploading_status = λ param s. keep s.1 (api.change_uploading_status param s.0);
    upload_file = λ d v k c s. keep (s.1 + 1) (api.upload_file d v k c s.0);
  }

  -- What is shown of a run with the count beside one without it.
  pub record Attempts {ℓ} (A : Type ℓ) (bound : ℕ) (n : ℕ) (with_count : A × (S × ℕ))
      (plain : A × S) : Type ℓ where
    pub result : with_count.0 ≡ plain.0
    pub state : with_count.1.0 ≡ plain.1
    pub at_most : with_count.1.1 ≤ n + bound

  retry_upload-Attempts :
      (retries : ℕ) (d : Text) (v : ℕ) (k : Text) (f : Option File) (s : S) (n : ℕ)
      → Attempts Bool retries n
          (retry_upload counted retries d v k f (s, n))
          (retry_upload api retries d v k f s)
  unfolding retry_upload
  retry_upload-Attempts zero d v k f s n = record {
    result = refl;
    state = refl;
    at_most = omega arith;
  }
  retry_upload-Attempts (suc r) d v k none s n = record {
    result = refl;
    state = refl;
    at_most = omega arith;
  }
  retry_upload-Attempts (suc r) d v k (some f) s n =
      let again =
        retry_upload-Attempts r d v k (some f) (api.upload_file d v k f.content s).1 (n + 1) in
      elim (Bool-cases (api.upload_file d v k f.content s).0) [
        | inl done ↦
            rw (done, retry_upload) (record { result = refl; state = refl; at_most = omega arith })
        | inr failed ↦
            rw (failed, retry_upload)
              (record {
                result = again.result;
                state = again.state;
                at_most = omega (arith, again.at_most);
              })
      ]

  -- A file is sent three times at most: an upload sends no more often than three times the number of
  -- its files, whatever the server answers, and the count changes nothing else.
  pub upload_all-Attempts :
      (fs : FileSystem) (d : Text) (v : ℕ) (files : List (Text × FilePath)) (s : S) (n : ℕ)
      → Attempts
          (List Text)
          (3 * length files)
          n
          (upload_all counted fs d v files (s, n))
          (upload_all api fs d v files s)
  unfolding upload_all
  upload_all-Attempts fs d v [] s n = record { result = refl; state = refl; at_most = omega arith }
  upload_all-Attempts fs d v ((key, path) ∷ files) s n =
      let sent = retry_upload counted 3 d v key (read fs path) (s, n) in
      let plain = retry_upload api 3 d v key (read fs path) s in
      let first = retry_upload-Attempts 3 d v key (read fs path) s n in
      let rest : Attempts (List Text) (3 * length files) sent.1.1
          (upload_all counted fs d v files sent.1) (upload_all api fs d v files plain.1) =
        subst
          (λ (t : S).
            Attempts (List Text) (3 * length files) sent.1.1
              (upload_all counted fs d v files (t, sent.1.1)) (upload_all api fs d v files plain.1))
          (sym first.state) (upload_all-Attempts fs d v files plain.1 sent.1.1) in
      record {
        result = rw (first.result, rest.result) refl;
        state = rest.state;
        at_most = omega (arith, first.at_most, rest.at_most);
      }
