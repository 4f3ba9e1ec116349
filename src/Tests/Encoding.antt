-- ===== src/Tests/Encoding.antt =====
-- Encodings for which both sides agree: texts with their length before them.
use spa_server.Base.{
  ℕ, zero, suc, ◌≡◌, refl, Option, none, some, List, [], ◌∷◌, ◌++◌, length, take, drop, map_some,
  arith, ap, Option-cases, inl, inr,
}
use spa_server.Base.Text.{Text, codes}
use spa_server.Base.Text.Decimal.{parse_u32, parse_u32-to_string}
use spa_server.FilePath.{FilePath}
use spa_server.Http.StatusCode
use spa_server.Storage.{
  ShortMetaData, UploadDomainPosition, UploadingStatus, uploading, finish, GetDomainPositionStatus,
  new_domain, new_version, in_uploading,
}
use spa_server.Admin.{
  UpdateUploadingStatusOption, DomainWithOptVersionOption, DomainWithVersionOption, Body, text,
  position, metadata, json, Part,
}
use spa_server.Admin.Routes.{AdminCrates}
use spa_server.Client.{ClientCrates}
use spa_server.Client.Calls.{AnswerCrates}
use spa_server.Client.Wire.{ReplyCrates, Decodes, text_part}

abbrev put : Text → Text → Text
put t rest = length t ∷ t ++ rest

abbrev get : Text → Text × Text
get [] = ([], [])
get (n ∷ s) = (take n s, drop n s)

take-++ : (t rest : Text) → take (length t) (t ++ rest) ≡ t
take-++ [] rest = refl
take-++ (c ∷ t) rest = ap (λ u. c ∷ u) (take-++ t rest)

drop-++ : (t rest : Text) → drop (length t) (t ++ rest) ≡ rest
drop-++ [] rest = refl
drop-++ (c ∷ t) rest = drop-++ t rest

abbrev put_path : FilePath → Text
put_path [] = []
put_path (name ∷ path) = put name (put_path path)

abbrev get_path : ℕ → Text → FilePath
get_path zero s = []
get_path (suc n) s = let (name, s') = get s in name ∷ get_path n s'

abbrev path_length : FilePath → ℕ
path_length [] = 0
path_length (name ∷ path) = suc (path_length path)

get_path-put_path : (path : FilePath) → get_path (path_length path) (put_path path) ≡ path
get_path-put_path [] = refl
get_path-put_path (name ∷ path) = simp (take-++, drop-++, get_path-put_path path)

abbrev put_items : List ShortMetaData → Text
put_items [] = []
put_items (m ∷ items) = m.len ∷ put m.path (put m.md5 (put_items items))

abbrev get_items : ℕ → Text → List ShortMetaData
get_items zero s = []
get_items (suc n) [] = []
get_items (suc n) (len ∷ s) =
    let (path, s') = get s in
    let (md5, s'') = get s' in (record { path = path; md5 = md5; len = len }) ∷ get_items n s''

abbrev items_length : List ShortMetaData → ℕ
items_length [] = 0
items_length (m ∷ items) = suc (items_length items)

get_items-put_items :
    (items : List ShortMetaData) → get_items (items_length items) (put_items items) ≡ items
get_items-put_items [] = refl
get_items-put_items (m ∷ items) = simp (take-++, drop-++, get_items-put_items items)

abbrev status_code : GetDomainPositionStatus → ℕ
status_code new_domain = 0
status_code new_version = 1
status_code in_uploading = 2

abbrev status_of : ℕ → GetDomainPositionStatus
status_of zero = new_domain
status_of (suc zero) = new_version
status_of (suc (suc n)) = in_uploading

status_of-status_code : (s : GetDomainPositionStatus) → status_of (status_code s) ≡ s
status_of-status_code new_domain = refl
status_of-status_code new_version = refl
status_of-status_code in_uploading = refl

abbrev text_of : Body → Text
text_of (text t) = t
text_of (position p) = p.version ∷ status_code p.status ∷ path_length p.path ∷ put_path p.path
text_of (metadata items) = items_length items ∷ put_items items
text_of b = []

abbrev pub replies : ReplyCrates
replies = record {
  text_of = text_of;
  reject = λ req. record { status = StatusCode.not_found; text = [] };
  reload_answer = record { status = StatusCode.ok; text = [] };
}

abbrev read_position : Text → Option UploadDomainPosition
read_position (version ∷ status ∷ n ∷ s) =
    some (record { path = get_path n s; version = version; status = status_of status })
read_position s = none

abbrev read_metadata : Text → Option (List ShortMetaData)
read_metadata [] = none
read_metadata (n ∷ s) = some (get_items n s)

abbrev pub reads : AnswerCrates
reads = record {
  read_position = read_position;
  read_metadata = read_metadata;
  read_value = some;
  query_texts = λ texts. none;
}

abbrev uploading_code : UploadingStatus → ℕ
uploading_code uploading = 0
uploading_code finish = 1

abbrev write_query : List (Text × Text) → Text
write_query [] = []
write_query ((name, value) ∷ items) = put value (write_query items)

abbrev write_version : Option ℕ → Text → Text
write_version none rest = 0 ∷ rest
write_version (some v) rest = 1 ∷ v ∷ rest

abbrev pub client : ClientCrates
client = record {
  delete_json = λ o. [];
  release_json = λ o. write_version o.version o.domain;
  status_json = λ o. o.version ∷ uploading_code o.status ∷ o.domain;
  query = write_query;
  form = λ d v k c. put d (put v (put k c));
}

abbrev read_release : Text → Option DomainWithOptVersionOption
read_release (zero ∷ d) = some (record { domain = d; version = none })
read_release (suc n ∷ v ∷ d) = some (record { domain = d; version = some v })
read_release s = none

abbrev read_status : Text → Option UpdateUploadingStatusOption
read_status (v ∷ zero ∷ d) = some (record { domain = d; version = v; status = uploading })
read_status (v ∷ suc n ∷ d) = some (record { domain = d; version = v; status = finish })
read_status s = none

abbrev read_version : Text → Option DomainWithVersionOption
read_version s =
    let (d, s') = get s in map_some (λ v. record { domain = d; version = v }) (parse_u32 (get s').0)

abbrev read_form : Text → List Part
read_form s =
    let (d, s') = get s in
    let (v, s'') = get s' in
    let (k, c) = get s'' in
    text_part (codes "domain") d
    ∷ text_part (codes "version") v
    ∷ text_part (codes "path") k
    ∷ text_part (codes "file") c
    ∷ []

abbrev pub admin : AdminCrates
admin = record {
  query_domain = λ q. some (record { domain = none });
  query_position = λ q. some (record { domain = (get q).0; format = json });
  query_version = read_version;
  query_delete = λ q. some (record { domain = none; max_reserve = none });
  json_release = read_release;
  json_status = read_status;
  form = λ b. some (some (read_form b));
  from_utf8 = some;
}

read_release-client :
    (p : DomainWithOptVersionOption) → read_release (client.release_json p) ≡ some p
read_release-client p = elim (Option-cases p.version) [
  | inl e ↦ ground (arith, e)
  | inr (v, e) ↦ ground (arith, e)
]

read_status-code :
    (d : Text) (v : ℕ) (s : UploadingStatus)
    → read_status (v ∷ uploading_code s ∷ d) ≡ some (record { domain = d; version = v; status = s })
read_status-code d v uploading = refl
read_status-code d v finish = refl

pub encodings-Decodes : Decodes admin replies client reads
encodings-Decodes = record {
  status_decodes = λ p. read_status-code p.domain p.version p.status;
  release_decodes = read_release-client;
  position_decodes = λ d. simp (take-++);
  version_decodes = λ d v small. simp (take-++, drop-++, parse_u32-to_string v small);
  form_decodes = λ d v k c. simp (take-++, drop-++);
  digits_utf8 = λ v. refl;
  text_reads = λ t. refl;
  position_reads = λ p. rw (get_path-put_path p.path, status_of-status_code p.status) refl;
  metadata_reads = λ l. rw (get_items-put_items l) refl;
}
