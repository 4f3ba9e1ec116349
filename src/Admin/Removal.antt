-- ===== src/Admin/Removal.antt =====
-- server/src/admin_server.rs: which versions a request to delete takes away.
use spa_server.Base.{
  ℕ, ◌+◌, ◌-◌, ◌≤◌, ◌<◌, ◌≡◌, ◌≢◌, refl, subst, ◌∙◌, inl, inr, true, false, ◌&&◌, not, Option, none,
  some, List, [], ◌∷◌, arith, ◌%◌, nat_eq, list_eq, ltb,
}
use spa_server.Base.{◌==◌, contains, contains-filter, Option-cases, Bool-cases}
use spa_server.Base.Dict
use spa_server.Base.Text.{Text}
use spa_server.Base.Text.Decimal.{u32_mod}
use spa_server.FilePath.{FilePath, join, is_under}
use spa_server.FileSystem.{FileSystem}
use spa_server.Storage.Frames.{remove_path-outside}
use spa_server.Crates.{Crates}
use spa_server.Storage.{
  Site, DomainInfo, DomainStorage, version_path, get_domain_serving_version,
  get_domain_info_by_domain,
}
use spa_server.Storage.Position.{domain_versions-lt}
use spa_server.Storage.Paths.{is_under-version_path}
use spa_server.Storage.Exclusive.{remove_domain_version_storage}
use spa_server.Storage.Upload
use spa_server.Admin.{
  delete_versions, remove_versions, remove_infos, remove_domain_version, domains_info,
}

-- The reserve reaches below the version that is served: a version is deleted exactly if it lies
-- more than the reserve below it.
pub contains-delete_versions :
    (i : DomainInfo) (current reserve v : ℕ)
    → i.current_version ≡ some current
    → reserve ≤ current
    → current < u32_mod
    → contains (delete_versions i (some reserve)) v
      ≡ (contains i.versions v && ltb v (current - reserve))
unfolding delete_versions
contains-delete_versions i current reserve v served fits bound =
    let least : (current + u32_mod - reserve) % u32_mod ≡ current - reserve = omega arith in
    rw (served, least, contains-filter)

-- A reserve that is larger than the version that is served makes the subtraction wrap: then the
-- version that is served is deleted itself.
pub delete_versions_underflow :
    (i : DomainInfo) (current reserve : ℕ)
    → i.current_version ≡ some current
    → contains i.versions current ≡ true
    → current < reserve
    → reserve < u32_mod
    → contains (delete_versions i (some reserve)) current ≡ true
unfolding delete_versions
delete_versions_underflow i current reserve served there less bound =
    let least : (current + u32_mod - reserve) % u32_mod ≡ current + u32_mod - reserve =
      omega arith in
    rw (served, least, contains-filter) (ground arith)

-- Every version of the list fits into a `u32` and is another than the given one.
abbrev Others : List ℕ → ℕ → Type 0
Others vs c = (v : ℕ) → contains vs v ≡ true → (v < u32_mod) × (v ≢ c)

version_path-apart :
    (prefix q : FilePath) (d : Text) (v c : ℕ)
    → v < u32_mod
    → c < u32_mod
    → v ≢ c
    → is_under (version_path prefix d c) q ≡ true
    → is_under (version_path prefix d v) q ≡ false
version_path-apart prefix q d v c h k other under =
    elim (Bool-cases (is_under (version_path prefix d v) q)) [
      | inl both ↦ absurd (other (is_under-version_path prefix q d v c h k both under))
      | inr apart ↦ apart
    ]

remove_domain_version-lookup :
    (a : Site) (d : Text) (v c : ℕ) (q : FilePath)
    → v < u32_mod
    → c < u32_mod
    → v ≢ c
    → is_under (version_path a.storage.prefix d c) q ≡ true
    → Dict.lookup q (Upload.remove_domain_version a d (some v)).1.fs ≡ Dict.lookup q a.fs
unfolding Upload.remove_domain_version
remove_domain_version-lookup a d v c q h k other under =
    remove_path-outside a (version_path a.storage.prefix d v) q
      (version_path-apart a.storage.prefix q d v c h k other under)

remove_versions-lookup :
    (a : Site) (d : Text) (vs : List ℕ) (c : ℕ) (q : FilePath)
    → Others vs c
    → c < u32_mod
    → is_under (version_path a.storage.prefix d c) q ≡ true
    → Dict.lookup q (remove_versions a d vs).fs ≡ Dict.lookup q a.fs
unfolding remove_versions
remove_versions-lookup a d [] c q others bound under = refl
remove_versions-lookup a d (v ∷ vs) c q others bound under =
    let (small, other) = others v (ground arith) in
    remove_versions-lookup (Upload.remove_domain_version a d (some v)).1 d vs c q
      (λ w m. others w (ground arith)) bound (rw (remove_domain_version_storage a d (some v)) under)
    ∙ remove_domain_version-lookup a d v c q small bound other under

-- The reserve, if one is given, does not reach below zero.
abbrev pub Reserves : Option ℕ → ℕ → Type 0
Reserves none current = Unit {0}
Reserves (some reserve) current = reserve ≤ current

delete_versions-Others :
    (i : DomainInfo) (current : ℕ) (reserve : Option ℕ)
    → i.current_version ≡ some current
    → current < u32_mod
    → Reserves reserve current
    → ((v : ℕ) → contains i.versions v ≡ true → v < u32_mod)
    → Others (delete_versions i reserve) current
unfolding delete_versions
delete_versions-Others i current none served bound h small v m =
    let kept = contains-filter (λ w. not (w == current)) i.versions v in
    ground (arith, served, kept, small v)
delete_versions-Others i current (some reserve) served bound h small v m =
    ground (arith, contains-delete_versions i current reserve v served h bound, small v)

module _ (crates : Crates) where
  versions-lt :
      (s : DomainStorage) (fs : FileSystem) (d : Text) (i : DomainInfo)
      → get_domain_info_by_domain crates s fs d ≡ some i
      → (i.domain ≡ d)
        × (i.current_version ≡ get_domain_serving_version s d)
        × ((v : ℕ) → contains i.versions v ≡ true → v < u32_mod)
  unfolding get_domain_info_by_domain
  versions-lt s fs d i h = (
    ground arith,
    ground arith,
    λ v m.
        domain_versions-lt crates fs (join s.prefix d) v
          (subst (λ (vs : List ℕ). contains vs v ≡ true) (ground arith) m),
  )

  -- A request to delete versions of a domain, with no reserve or with one that is at most the
  -- version served: nothing at or below the directory of the version that the domain serves
  -- changes on disk.
  pub remove_domain_version-keeps_served :
      (a : Site) (d : Text) (current : ℕ) (reserve : Option ℕ) (q : FilePath)
      → get_domain_serving_version a.storage d ≡ some current
      → current < u32_mod
      → Reserves reserve current
      → is_under (version_path a.storage.prefix d current) q ≡ true
      → Dict.lookup q
          (remove_domain_version crates (record { domain = some d; max_reserve = reserve }) a).1.fs
        ≡ Dict.lookup q a.fs
  unfolding remove_domain_version domains_info remove_infos
  remove_domain_version-keeps_served a d current reserve q served bound fits under =
      elim (Option-cases (get_domain_info_by_domain crates a.storage a.fs d)) [
        | inl missing ↦ rw (missing, remove_domain_version)
        | inr (i, there) ↦
            let (named, now, small) = versions-lt a.storage a.fs d i there in
            rw (there, remove_domain_version, named)
              (remove_versions-lookup a d (delete_versions i reserve) current q
                (delete_versions-Others i current reserve (now ∙ served) bound fits small) bound
                under)
      ]
