-- ===== src/Storage/Paths.antt =====
-- The paths of versions and markers.
use mathlib.Core.List.{append_assoc}
use spa_server.Base.{ℕ, ◌<◌, ◌≡◌, refl, sym, ap, subst, ◌∙◌, true, List, [], ◌∷◌, ◌++◌, arith}
use spa_server.Base.{some, nat_eq, list_eq}
use spa_server.Base.Text.{Text}
use spa_server.Base.Text.Decimal.{u32_mod, to_string, parse_u32, parse_u32-to_string}
use spa_server.FilePath.{FilePath, is_piece, join, is_under, file_name}
use spa_server.FilePath.Names.{
  IsName, join_of_IsName, to_string-IsName, file_name-snoc, is_under-append, is_under-snoc,
}
use spa_server.Storage.{
  DomainStorage, uploading_file_name, version_path, get_version_path, marker_path, version_of,
}

pub to_string_injective : (m n : ℕ) → m < u32_mod → n < u32_mod → to_string m ≡ to_string n → m ≡ n
to_string_injective m n h k e =
    let p : some m ≡ some n =
      sym (parse_u32-to_string m h) ∙ ap parse_u32 e ∙ parse_u32-to_string n k in
    cc

-- A domain that is a single name has its versions two levels below the prefix.
pub version_path_of_IsName :
    (prefix : FilePath) (domain : Text) (version : ℕ)
    → IsName domain
    → version_path prefix domain version ≡ prefix ++ domain ∷ to_string version ∷ []
unfolding version_path
version_path_of_IsName prefix domain version h =
    rw (join_of_IsName prefix domain h, join_of_IsName _ _ (to_string-IsName version), append_assoc)

-- The version that stands in the name of the directory of a version is that version, for any `u32`.
pub version_of-version_path :
    (prefix : FilePath) (domain : Text) (version : ℕ)
    → version < u32_mod
    → version_of (version_path prefix domain version) ≡ some version
unfolding version_path
version_of-version_path prefix domain version h =
    rw (join_of_IsName _ _ (to_string-IsName version), file_name-snoc)
      (parse_u32-to_string version h)

pub uploading_file_name-IsName : IsName uploading_file_name
unfolding is_piece
uploading_file_name-IsName = (refl, omega arith)

pub marker_path-under :
    (s : DomainStorage) (domain : Text) (version : ℕ)
    → is_under (get_version_path s domain version) (marker_path s domain version) ≡ true
unfolding marker_path
marker_path-under s domain version =
    rw (join_of_IsName _ _ uploading_file_name-IsName) (is_under-append _ _)

pub snoc_injective {ℓ} : {A : Type ℓ} (p : List A) {x y : A} → p ++ x ∷ [] ≡ p ++ y ∷ [] → x ≡ y
snoc_injective [] e = cc
snoc_injective (a ∷ p) e = snoc_injective p (cc)

-- Different versions have different paths.
pub version_path_injective :
    (prefix : FilePath) (domain : Text) (m n : ℕ)
    → m < u32_mod
    → n < u32_mod
    → version_path prefix domain m ≡ version_path prefix domain n
    → m ≡ n
unfolding version_path
version_path_injective prefix domain m n h k e = to_string_injective m n h k (
    snoc_injective (join prefix domain)
      (sym (join_of_IsName _ _ (to_string-IsName m)) ∙ e ∙ join_of_IsName _ _ (to_string-IsName n)))

-- A path lies below the directory of one version at most.
pub is_under-version_path :
    (prefix q : FilePath) (domain : Text) (m n : ℕ)
    → m < u32_mod
    → n < u32_mod
    → is_under (version_path prefix domain m) q ≡ true
    → is_under (version_path prefix domain n) q ≡ true
    → m ≡ n
unfolding version_path
is_under-version_path prefix q domain m n h k under_m under_n = to_string_injective m n h k (
    is_under-snoc (join prefix domain) q (to_string m) (to_string n)
      (subst (λ (p : FilePath). is_under p q ≡ true) (join_of_IsName _ _ (to_string-IsName m))
        under_m)
      (subst (λ (p : FilePath). is_under p q ≡ true) (join_of_IsName _ _ (to_string-IsName n))
        under_n))

pub file_name-marker_path :
    (s : DomainStorage) (domain : Text) (version : ℕ)
    → file_name (marker_path s domain version) ≡ uploading_file_name
unfolding marker_path
file_name-marker_path s domain version =
    rw (join_of_IsName _ _ uploading_file_name-IsName) (file_name-snoc _ _)

pub marker_path_snoc :
    (s : DomainStorage) (domain : Text) (version : ℕ)
    → marker_path s domain version ≡ get_version_path s domain version ++ uploading_file_name ∷ []
unfolding marker_path
marker_path_snoc s domain version = join_of_IsName _ _ uploading_file_name-IsName

-- The versions of a domain lie below its directory.
pub version_path-below :
    (prefix : FilePath) (domain : Text) (version : ℕ)
    → IsName domain
    → is_under (prefix ++ domain ∷ []) (version_path prefix domain version) ≡ true
version_path-below prefix domain version h =
    rw
      (
        version_path_of_IsName prefix domain version h,
        ← append_assoc prefix (domain ∷ []) (to_string version ∷ []),
      )
      (is_under-append (prefix ++ domain ∷ []) (to_string version ∷ []))
