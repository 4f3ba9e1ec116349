-- ===== src/Storage/Restart.antt =====
-- server/src/domain_storage.rs: what `DomainStorage::init` finds of a domain on the disk.
pub mod Domain
pub mod Starts
use spa_server.Base.{
  ℕ, ◌≡◌, ◌≢◌, refl, true, false, Option, none, some, List, [], ◌∷◌, ◌++◌, arith, nat_eq, list_eq,
}
use spa_server.Base.{
  ap, sym, ◌∙◌, All, contains, ==-refl, eq_of_==, subst, some-injective, none-ne-some, Bool-cases,
  ◌&&◌, ◌==◌, if◌then◌else◌, ltb, or, filter_map, Option-cases, inl, inr,
}
use spa_server.Base.Dict
use spa_server.Base.Dict.{Dict}
use spa_server.Base.Text.{Text}
use spa_server.FilePath.{FilePath, join, file_name}
use spa_server.FilePath.Names.{file_name-snoc}
use spa_server.FileSystem.{FileSystem, exists, is_dir, read_dir}
use spa_server.FileCache.{FileCache, update}
use spa_server.Crates.{Crates}
use spa_server.Storage.{
  version_path, ok, err, DomainStorage, uploading_file_name, version_of, get_domain_serving_version,
}
use spa_server.Storage.Init.{
  scan_version, scan_versions, serve_version, load_domain, load_domains, init,
}

-- The versions below a domain's directory: those that are marked as uploads, and the others.
unfoldable pub marked_versions : FileSystem → List FilePath → List ℕ
unfolding exists
marked_versions fs paths =
    filter_map (λ p. if exists fs (join p uploading_file_name) then version_of p else none) paths

unfoldable pub complete_versions : FileSystem → List FilePath → List ℕ
unfolding exists
complete_versions fs paths =
    filter_map (λ p. if exists fs (join p uploading_file_name) then none else version_of p) paths

abbrev later : ℕ → ℕ → ℕ
later m n = if ltb m n then n else m

abbrev pub largest : List ℕ → ℕ
largest [] = 0
largest (v ∷ versions) = later v (largest versions)

abbrev pub last : List ℕ → Option ℕ
last [] = none
last (v ∷ versions) = or (last versions) (some v)

abbrev pub not_zero : ℕ → Option ℕ
not_zero v = if ltb 0 v then some v else none

pub scan_versions-largest :
    (fs : FileSystem) (d : Text) (status : Dict Text ℕ) (m : ℕ) (paths : List FilePath)
    → (scan_versions fs d (status, m) paths).1 ≡ later m (largest (complete_versions fs paths))
unfolding scan_versions complete_versions
scan_versions-largest fs d status m [] = ground arith
scan_versions-largest fs d status m (p ∷ paths) = elim (Option-cases (version_of p)) [
  | inl other ↦ ground (arith, other, scan_versions-largest fs d status m paths)
  | inr (v, version) ↦ ground (
    arith,
    version,
    scan_versions-largest fs d (Dict.insert d v status) m paths,
    scan_versions-largest fs d status m paths,
    scan_versions-largest fs d status v paths,
  )
]

pub scan_versions-last :
    (fs : FileSystem) (d e : Text) (status : Dict Text ℕ) (m : ℕ) (paths : List FilePath)
    → Dict.lookup e (scan_versions fs d (status, m) paths).0 ≡ (
        if e == d
        then or (last (marked_versions fs paths)) (Dict.lookup e status)
        else Dict.lookup e status)
unfolding scan_versions marked_versions
scan_versions-last fs d e status m [] = ground arith
scan_versions-last fs d e status m (p ∷ paths) = elim (Option-cases (version_of p)) [
  | inl other ↦ ground (arith, other, scan_versions-last fs d e status m paths)
  | inr (v, version) ↦ ground (
    arith,
    version,
    Dict.lookup-insert e d v status,
    scan_versions-last fs d e (Dict.insert d v status) m paths,
    scan_versions-last fs d e status m paths,
    scan_versions-last fs d e status v paths,
  )
]
