-- ===== src/Client/Wire.antt =====
-- client/src/api.rs and server/src/admin_server.rs joined: a transport that brings every request to
-- the routes of the server and the reply back.
pub mod Agrees
use spa_server.Base.{ℕ, ◌<◌, ◌≡◌, Option, none, some, List, [], ◌∷◌}
use spa_server.Base.Text.{Text, codes}
use spa_server.Base.Text.Decimal.{u32_mod, to_string}
use spa_server.Config.{AdminConfig}
use spa_server.Crates.{Crates}
use spa_server.Storage.{Site, UploadDomainPosition, ShortMetaData}
use spa_server.Admin.{
  Body, text, position, metadata, Part, json, UpdateUploadingStatusOption,
  DomainWithOptVersionOption,
}
use spa_server.Admin.Routes.{AdminCrates, AdminRequest, Routed, answered, reloads, rejected, routes}
use spa_server.Client.{ClientCrates}
use spa_server.Client.Calls.{Response, AnswerCrates, Transport}

-- What the server's crates print: a reply's body, and the answers to a request that no route takes and
-- to a reload.
pub record ReplyCrates : Type 0 where
  pub text_of : Body → Text
  pub reject : AdminRequest → Response
  pub reload_answer : Response

module _ (crates : Crates) (admin : AdminCrates) (replies : ReplyCrates) (conf : AdminConfig)
    (now : ℕ) where
  abbrev back : AdminRequest → Site → Routed → Option Response × Site
  back req site (answered reply site') =
      (some (record { status = reply.status; text = replies.text_of reply.body }), site')
  back req site reloads = (some replies.reload_answer, site)
  back req site rejected = (some (replies.reject req), site)

  unfoldable pub direct : Transport Site
  unfolding routes
  direct req site = back req site (routes crates admin conf req now site)

-- A part of a form as the client writes it.
abbrev pub text_part : Text → Text → Part
text_part name content = record { name = name; content = some (some content) }

-- Documented behaviour of the crates on both sides: what one side writes the other one reads.
pub record Decodes (admin : AdminCrates) (replies : ReplyCrates) (client : ClientCrates)
    (reads : AnswerCrates) : Type 0 where
  pub status_decodes :
      (p : UpdateUploadingStatusOption) → admin.json_status (client.status_json p) ≡ some p
  pub release_decodes :
      (p : DomainWithOptVersionOption) → admin.json_release (client.release_json p) ≡ some p
  pub position_decodes :
      (d : Text)
      → admin.query_position
          (client.query ((codes "domain", d) ∷ (codes "format", codes "Json") ∷ []))
        ≡ some (record { domain = d; format = json })
  pub version_decodes :
      (d : Text) (v : ℕ)
      → v < u32_mod
      → admin.query_version
          (client.query ((codes "domain", d) ∷ (codes "version", to_string v) ∷ []))
        ≡ some (record { domain = d; version = v })
  pub form_decodes :
      (d v k c : Text)
      → admin.form (client.form d v k c)
        ≡ some (
            some (
              text_part (codes "domain") d
              ∷ text_part (codes "version") v
              ∷ text_part (codes "path") k
              ∷ text_part (codes "file") c
              ∷ []))
  pub digits_utf8 : (v : ℕ) → admin.from_utf8 (to_string v) ≡ some (to_string v)
  -- a text is answered as it is
  pub text_reads : (t : Text) → replies.text_of (text t) ≡ t
  pub position_reads :
      (p : UploadDomainPosition) → reads.read_position (replies.text_of (position p)) ≡ some p
  pub metadata_reads :
      (l : List ShortMetaData) → reads.read_metadata (replies.text_of (metadata l)) ≡ some l
