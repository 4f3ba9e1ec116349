-- ===== src/Storage/Position.antt =====
-- server/src/domain_storage.rs: the versions that `get_upload_position` and a release choose.
use spa_server.Base.{
  ℕ, ◌+◌, ◌<◌, ◌≤◌, ◌-◌, ◌%◌, ◌≡◌, refl, sym, ap, ◌∙◌, true, false, inl, inr, Option, none, some,
  List, [], ◌∷◌, ◌++◌, arith, nat_eq, list_eq, option_eq,
}
use spa_server.Base.{
  Bool-cases, Option-cases, ltb, unwrap_or, contains, filter_map-contains, contains-filter_map,
}
use spa_server.Base.Dict
use spa_server.Base.Text.{Text}
use spa_server.Base.Text.Decimal.{u32_mod, to_string, parse_u32-lt}
use spa_server.FilePath.{FilePath, join, file_name, depth_below}
use spa_server.FilePath.Names.{join_of_IsName, to_string-IsName, is_under-append}
use spa_server.FileSystem.{FileSystem, exists}
use spa_server.FileSystem.WalkDir.{IsWalk}
use spa_server.Crates.{Crates}
use spa_server.Storage.{
  DomainStorage, max_of, version_of, version_path, domain_versions, get_domain_info_by_domain,
  get_upload_position,
}
use spa_server.Storage.Paths.{version_of-version_path}

apart : true ≡ false → ⊥
apart e = cc

max_of-none : (xs : List ℕ) (x : ℕ) → max_of xs ≡ none → contains xs x ≡ false
unfolding max_of nat_eq
max_of-none [] x h = refl
max_of-none (y ∷ ys) x h = elim (Option-cases (max_of ys)) [
  | inl e ↦ ground (arith, e)
  | inr (n, e) ↦ ground (arith, e)
]

-- The largest of a list bounds it.
max_of-bounds : (xs : List ℕ) (m x : ℕ) → max_of xs ≡ some m → contains xs x ≡ true → x ≤ m
unfolding max_of nat_eq
max_of-bounds [] m x h k = ground arith
max_of-bounds (y ∷ ys) m x h k = elim (Option-cases (max_of ys)) [
  | inl e ↦ ground (arith, e, max_of-none ys x e)
  | inr (n, e) ↦ elim (Bool-cases (ltb y n)) [
    | inl less ↦ ground (arith, e, less, max_of-bounds ys n x e)
    | inr more ↦ ground (arith, e, more, max_of-bounds ys n x e)
  ]
]

max_of-contains : (xs : List ℕ) (m : ℕ) → max_of xs ≡ some m → contains xs m ≡ true
unfolding max_of nat_eq
max_of-contains [] m h = ground arith
max_of-contains (y ∷ ys) m h = elim (Option-cases (max_of ys)) [
  | inl e ↦ ground (arith, e)
  | inr (n, e) ↦ ground (arith, e, max_of-contains ys n e)
]

depth_below-snoc : (p : FilePath) (c : Text) → depth_below p (p ++ c ∷ []) ≡ 1
depth_below-snoc [] c = refl
depth_below-snoc (d ∷ p) c = depth_below-snoc p c

module _ (crates : Crates) where
  pub domain_versions-lt :
      (fs : FileSystem) (path : FilePath) (v : ℕ)
      → contains (domain_versions crates fs path) v ≡ true
      → v < u32_mod
  unfolding domain_versions
  domain_versions-lt fs path v m =
      let (p, _, e) = filter_map-contains version_of (crates.walk fs path (some 1)) v m in
      parse_u32-lt (file_name p) v e

  -- What is offered next to the versions of a domain.
  abbrev next_version : FileSystem → FilePath → ℕ
  unfolding max_of domain_versions
  next_version fs path = (unwrap_or (max_of (domain_versions crates fs path)) 0 + 1) % u32_mod

  get_upload_position-path :
      (s : DomainStorage) (fs : FileSystem) (d : Text)
      → Dict.lookup d s.uploading_status ≡ none
      → (get_upload_position crates s fs d).path
        ≡ version_path s.prefix d (next_version fs (join s.prefix d))
  unfolding get_upload_position get_domain_info_by_domain next_version
  get_upload_position-path s fs d idle = go (domain_versions crates fs (join s.prefix d)) refl
    where
      go :
          (vs : List ℕ)
          → domain_versions crates fs (join s.prefix d) ≡ vs
          → (get_upload_position crates s fs d).path
            ≡ version_path s.prefix d (next_version fs (join s.prefix d))
      go [] e = rw (idle, e, get_upload_position) refl
      go (v ∷ vs) e = rw (idle, e, get_upload_position) refl

module _ (crates : Crates) (walks : IsWalk crates.walk) where
  version_path-walked :
      (s : DomainStorage) (fs : FileSystem) (d : Text) (v : ℕ)
      → exists fs (version_path s.prefix d v) ≡ true
      → contains (crates.walk fs (join s.prefix d) (some 1)) (version_path s.prefix d v) ≡ true
  unfolding version_path
  version_path-walked s fs d v there =
      let root = join s.prefix d in
      let name = to_string v in
      let e : join root name ≡ root ++ name ∷ [] = join_of_IsName root name (to_string-IsName v) in
      walks.contains-walk fs root (join root name) (some 1)
      ∙ rw (there, e, is_under-append root (name ∷ []), depth_below-snoc root name) refl

  -- A directory that is named by a version is among the versions of its domain.
  version_path-listed :
      (s : DomainStorage) (fs : FileSystem) (d : Text) (v : ℕ)
      → v < u32_mod
      → exists fs (version_path s.prefix d v) ≡ true
      → contains (domain_versions crates fs (join s.prefix d)) v ≡ true
  unfolding domain_versions
  version_path-listed s fs d v bound there =
      contains-filter_map version_of (crates.walk fs (join s.prefix d) (some 1))
        (version_path s.prefix d v) v (version_path-walked s fs d v there)
        (version_of-version_path s.prefix d v bound)

  next_version-free :
      (s : DomainStorage) (fs : FileSystem) (d : Text)
      → contains (domain_versions crates fs (join s.prefix d)) (u32_mod - 1) ≡ false
      → exists fs (version_path s.prefix d (next_version crates fs (join s.prefix d))) ≡ false
  unfolding next_version
  next_version-free s fs d small =
      let vs = domain_versions crates fs (join s.prefix d) in
      let next = next_version crates fs (join s.prefix d) in
      elim (Bool-cases (exists fs (version_path s.prefix d next))) [
        | inr free ↦ free
        | inl there ↦
            let listed = version_path-listed s fs d next (omega arith) there in
            elim (Option-cases (max_of vs)) [
              | inl e ↦ ground (arith, max_of-none vs next e, listed)
              | inr (m, e) ↦
                  let there_m = max_of-contains vs m e in
                  let less = domain_versions-lt crates fs (join s.prefix d) m there_m in
                  let next_is : next ≡ (m + 1) % u32_mod =
                    ap (λ (o : Option ℕ). (unwrap_or o 0 + 1) % u32_mod) e in
                  let bound : next ≤ m = max_of-bounds vs m next e listed in
                  let last : m ≡ u32_mod - 1 = omega (arith, next_is, bound, less) in
                  absurd (apart (sym there_m ∙ ap (contains vs) last ∙ small))
            ]
      ]

  -- The position that is offered for an upload of a domain, if none is on, is free: nothing is there on
  -- disk, as long as no version of the domain is the largest `u32`.
  pub get_upload_position-free :
      (s : DomainStorage) (fs : FileSystem) (d : Text)
      → Dict.lookup d s.uploading_status ≡ none
      → contains (domain_versions crates fs (join s.prefix d)) (u32_mod - 1) ≡ false
      → exists fs (get_upload_position crates s fs d).path ≡ false
  get_upload_position-free s fs d idle small =
      rw (get_upload_position-path crates s fs d idle) (next_version-free s fs d small)
