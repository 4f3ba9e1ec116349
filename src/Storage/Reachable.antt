-- ===== src/Storage/Reachable.antt =====
-- The requests that change a storage or its disk, as steps, and the states that they reach.
use spa_server.Base.{ℕ, Option, some}
use spa_server.Base.Text.{Text}
use spa_server.Crates.{Crates}
use spa_server.Storage.{Site, UploadingStatus}
use spa_server.Storage.Release.{upload_domain_with_version}
use spa_server.Storage.Upload.{save_file, update_uploading_status, remove_domain_version}

module _ (crates : Crates) where
  pub data Step (a : Site) : Site → Type 0 where
    released :
        (domain : Text) (version : Option ℕ)
        → Step a (upload_domain_with_version crates a domain version).1
    saved :
        (domain : Text) (version : ℕ) (path content : Text) (now : ℕ)
        → Step a (save_file crates a domain version path content now).1
    status_changed :
        (domain : Text) (version : ℕ) (status : UploadingStatus) (now : ℕ)
        → Step a (update_uploading_status a domain version status now).1
    removed :
        (domain : Text) (version : Option ℕ) → Step a (remove_domain_version a domain version).1

  pub data Reach (a : Site) : Site → Type 0 where
    here : Reach a a
    next : {b c : Site} → Reach a b → Step b c → Reach a c

  -- A property that every step keeps holds of every state reached.
  pub Reach_induction :
      (P : Site → Type 0)
      → ((a b : Site) → Step a b → P a → P b)
      → (a b : Site) → Reach a b
      → P a
      → P b
  Reach_induction P keep a b here h = h
  Reach_induction P keep a b (next {b = m} r s) h = keep m b s (Reach_induction P keep a m r h)

  pub Reach-trans : (a b c : Site) → Reach a b → Reach b c → Reach a c
  Reach-trans a b _ r here = r
  Reach-trans a b c r (next {b = m} t s) = next (Reach-trans a b m r t) s

  -- The domain that a request names, and the version where it names one.
  abbrev pub step_domain : {a b : Site} → Step a b → Text
  step_domain (released d v) = d
  step_domain (saved d v path content now) = d
  step_domain (status_changed d v status now) = d
  step_domain (removed d v) = d

  abbrev pub step_version : {a b : Site} → Step a b → Option ℕ
  step_version (released d v) = v
  step_version (saved d v path content now) = some v
  step_version (status_changed d v status now) = some v
  step_version (removed d v) = v

  -- A condition on each request of a sequence.
  abbrev pub Each : ((a b : Site) → Step a b → Type 0) → {a b : Site} → Reach a b → Type 0
  Each P here = Unit {0}
  Each P (next r s) = Each P r × P _ _ s
