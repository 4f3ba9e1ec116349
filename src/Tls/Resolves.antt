-- ===== src/Tls/Resolves.antt =====
-- server/src/tls.rs: the certificate that a client gets is that of the domain it names.
use spa_server.Base.{
  ◌⊎◌, ◌≡◌, refl, inl, inr, Option, none, some, List, [], ◌∷◌, arith, nat_eq, list_eq, option_eq,
}
use spa_server.Base.{◌==◌, if◌then◌else◌, and_then, or, Option-cases}
use spa_server.Base.Text.{Text}
use spa_server.FileSystem.{FileSystem}
use spa_server.Config.{Ssl, Config}
use spa_server.Tls.{
  CertifiedKey, Error, Result, ok, err, TlsCrates, Resolver, ssls, load_ssl_file, add_ssls,
  load_default, dynamic_resolver, load_ssl_server_config, resolve,
}

-- The documented behaviour of `ResolvesServerCertUsingSni`: it maps names to keys.
pub record IsSni {W : Type 0} (tls : TlsCrates W) : Type 0 where
  pub resolve-new : (name : Option Text) → tls.sni_resolve tls.sni_new name ≡ none
  pub resolve-add :
      (w w' : W) (domain : Text) (key : CertifiedKey) (name : Option Text)
      → tls.sni_add w domain key ≡ some w'
      → tls.sni_resolve w' name ≡ (if name == some domain then some key else tls.sni_resolve w name)

abbrev pub key_of : Result CertifiedKey → Option CertifiedKey
key_of (err e) = none
key_of (ok key) = some key

pub Result-cases {ℓ} :
    {A : Type ℓ} (r : Result A) → ((a : A) × (r ≡ ok a)) ⊎ ((e : Error) × (r ≡ err e))
Result-cases (ok a) = inl (a, refl)
Result-cases (err e) = inr (e, refl)

module _ {W : Type 0} (tls : TlsCrates W) (fs : FileSystem) where
  -- The certificate of a name: the last one in the configuration whose domain has it.
  unfoldable pub own_key : Option Text → List (Text × Ssl) → Option CertifiedKey
  unfolding load_ssl_file nat_eq list_eq option_eq
  own_key name [] = none
  own_key name ((domain, ssl) ∷ rest) =
      or (own_key name rest)
        (if name == some domain then key_of (load_ssl_file tls fs ssl) else none)

  -- The certificate of the server itself.
  unfoldable pub server_key : Option Ssl → Option CertifiedKey
  unfolding load_ssl_file
  server_key ssl = and_then ssl (λ s. key_of (load_ssl_file tls fs s))

  load_default-server_key :
      (ssl : Option Ssl) (default : Option CertifiedKey)
      → load_default tls fs ssl ≡ ok default
      → server_key ssl ≡ default
  unfolding load_default server_key
  load_default-server_key none default h = ground arith
  load_default-server_key (some ssl) default h = elim (Result-cases (load_ssl_file tls fs ssl)) [
    | inr (e, failed) ↦ ground (arith, failed)
    | inl (key, loaded) ↦ ground (arith, loaded)
  ]

  module _ (sni : IsSni tls) where
    add_ssls-resolve :
        (w w' : W) (items : List (Text × Ssl)) (name : Option Text)
        → add_ssls tls fs w items ≡ ok w'
        → tls.sni_resolve w' name ≡ or (own_key name items) (tls.sni_resolve w name)
    unfolding add_ssls own_key
    add_ssls-resolve w w' [] name h = ground arith
    add_ssls-resolve w w' ((domain, ssl) ∷ rest) name h =
        elim (Result-cases (load_ssl_file tls fs ssl)) [
          | inr (e, failed) ↦ ground (arith, failed)
          | inl (key, loaded) ↦ elim (Option-cases (tls.sni_add w domain key)) [
            | inl refused ↦ ground (arith, loaded, refused)
            | inr (v, added) ↦ ground (
              arith,
              loaded,
              added,
              add_ssls-resolve v w' rest name,
              sni.resolve-add w v domain key name added,
            )
          ]
        ]

    dynamic_resolver-resolve :
        (default : Option CertifiedKey) (items : List (Text × Ssl)) (r : Resolver W)
        (name : Option Text)
        → dynamic_resolver tls fs default items ≡ ok r
        → resolve tls r name ≡ or (own_key name items) default
    unfolding dynamic_resolver resolve own_key
    dynamic_resolver-resolve none [] r name h = ground arith
    dynamic_resolver-resolve (some key) [] r name h = ground arith
    dynamic_resolver-resolve none (s ∷ rest) r name h =
        elim (Result-cases (add_ssls tls fs tls.sni_new (s ∷ rest))) [
          | inr (e, failed) ↦ ground (arith, failed)
          | inl (w, added) ↦ ground (
            arith,
            added,
            add_ssls-resolve tls.sni_new w (s ∷ rest) name added,
            sni.resolve-new name,
          )
        ]
    dynamic_resolver-resolve (some key) (s ∷ rest) r name h =
        elim (Result-cases (add_ssls tls fs tls.sni_new (s ∷ rest))) [
          | inr (e, failed) ↦ ground (arith, failed)
          | inl (w, added) ↦ ground (
            arith,
            added,
            add_ssls-resolve tls.sni_new w (s ∷ rest) name added,
            sni.resolve-new name,
          )
        ]

    -- Once the configuration is loaded, a client that names a domain gets the certificate of the last
    -- entry with that domain's name that has one, any other client and one that names nothing the
    -- certificate of the server, and none if the server has none.
    pub load_ssl_server_config-resolve :
        (config : Config) (r : Resolver W) (name : Option Text)
        → load_ssl_server_config tls fs config ≡ ok r
        → resolve tls r name
          ≡ or (own_key name (ssls config)) (server_key (and_then config.https (λ h. h.ssl)))
    unfolding load_ssl_server_config
    load_ssl_server_config-resolve config r name h =
        let ssl : Option Ssl = and_then config.https (λ c. c.ssl) in
        elim (Result-cases (load_default tls fs ssl)) [
          | inr (e, failed) ↦ ground (arith, failed)
          | inl (default, loaded) ↦ ground (
            arith,
            loaded,
            load_default-server_key ssl default loaded,
            dynamic_resolver-resolve default (ssls config) r name,
          )
        ]
