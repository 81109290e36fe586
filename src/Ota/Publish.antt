-- ===== src/Ota/Publish.antt =====
-- The publication API of web/ota/views.py: the two upserts, the upload and the latest image, each
-- with the checks in their order.
use sensor_server.Prelude.{
  ℕ, zero, suc, code, ◌*◌, String, Bool, true, false, not, ◌&&◌, ◌||◌, ℤ, pos, negsuc, Option, none,
  some, List, [], ◌∷◌, ◌++◌, ltb, leb, eqb, ◌==◌, any, find, length, if◌then◌else◌,
}
use sensor_server.Text.{
  len, prefix, suffix, starts_with, is_empty, hw_code_re, is_digit, version_char, all_chars,
}
use sensor_server.Value.{Json, Items, Dict, get_or, elements}
use sensor_server.Ota.Catalog.{Firmware, Catalog, is_revision, is_image}
use sensor_server.World.{update_where}

-- The status codes of the answers.
pub data Answer : Type 0 where
  ok created bad_request unauthorized not_found conflict publication_disabled : Answer

-- The parts of the request and of the platform that the endpoints read: the digest, `int` of a text,
-- and the lower case of a text.
pub record Platform : Type 0 where
  pub md5_of : List ℕ → String
  pub parse_int : String → Option ℤ
  pub lower : String → String
  pub strip : String → String

-- update_or_create: the first row that matches is replaced, or a new one stands at the end.
unfoldable pub upsert {ℓ} : {A : Type ℓ} → (A → Bool) → A → List A → List A
unfolding update_where any
upsert matches new rows =
    if any matches rows then update_where matches (λ old. new) rows else rows ++ new ∷ []

unfoldable pub upserted {ℓ} : {A : Type ℓ} → (A → Bool) → List A → Answer
unfolding any
upserted matches rows = if any matches rows then ok else created

abbrev pub text_of : Json → Option String
text_of (Json.str t) = some t
text_of _ = none

-- Every member is a string.
unfoldable pub texts_of : List Json → Option (List String)
texts_of [] = some []
texts_of (Json.str t ∷ ts) = elim (texts_of ts) [ none ↦ none | some rest ↦ some (t ∷ rest) ]
texts_of (_ ∷ ts) = none

abbrev pub modules_of : Json → Option (List String)
modules_of (Json.list ts) = texts_of (elements ts)
modules_of _ = none

-- The upsert of A1, if the three fields have their types.
abbrev pub put_code :
    String → Option String → Option String → Option (List String) → Catalog → Answer × Catalog
put_code hw_code (some platform) (some description) (some modules) c = (
  upserted (λ h. h.hw_code == hw_code) c.codes,
  record c {
    codes =
        upsert (λ h. h.hw_code == hw_code)
          (record {
            hw_code = hw_code;
            platform = prefix 32 platform;
            description = prefix 256 description;
            modules = modules;
          })
          c.codes;
  },
)
put_code hw_code _ _ _ c = (bad_request, c)

abbrev pub code_body : String → Catalog → Option (Dict Json) → Answer × Catalog
code_body hw_code c none = (bad_request, c)
code_body hw_code c (some fields) =
    put_code hw_code (text_of (get_or "platform" (Json.str "") fields))
      (text_of (get_or "description" (Json.str "") fields))
      (modules_of (get_or "modules" (Json.list Items.nil) fields)) c

-- hw_code_view; the body is `none` if it is no JSON object
unfoldable pub hw_code_view : String → String → Option (Dict Json) → Catalog → Answer × Catalog
unfolding hw_code_re prefix upsert upserted texts_of get_or elements
hw_code_view method hw_code body c =
    if not (method == "PUT")
    then (bad_request, c)
    else if not (hw_code_re hw_code)
    then (bad_request, c)
    else code_body hw_code c body

-- `bat_divider is not None and not isinstance(bat_divider, (int, float))` is `false`
abbrev pub is_divider : Json → Bool
is_divider Json.null = true
is_divider (Json.bool b) = true
is_divider (Json.int n) = true
is_divider (Json.float x) = true
is_divider _ = false

abbrev pub put_revision :
    String → ℕ → Option String → Option String → Json → Catalog → Answer × Catalog
put_revision hw_code hw_rev (some description) (some notes) bat_divider c =
    if not (is_divider bat_divider) then (bad_request, c) else (
      upserted (is_revision hw_code hw_rev) c.revisions,
      record c {
        revisions =
            upsert (is_revision hw_code hw_rev)
              (record {
                hw_code = hw_code;
                hw_rev = hw_rev;
                description = prefix 256 description;
                bat_divider_nominal = bat_divider;
                notes = notes;
              })
              c.revisions;
      },
    )
put_revision hw_code hw_rev _ _ bat_divider c = (bad_request, c)

abbrev pub revision_body : String → ℕ → Catalog → Option (Dict Json) → Answer × Catalog
revision_body hw_code hw_rev c none = (bad_request, c)
revision_body hw_code hw_rev c (some fields) =
    put_revision hw_code hw_rev (text_of (get_or "description" (Json.str "") fields))
      (text_of (get_or "notes" (Json.str "") fields))
      (get_or "bat_divider_nominal" Json.null fields) c

-- hw_revision_view
unfoldable pub hw_revision_view :
    String → String → ℕ → Option (Dict Json) → Catalog → Answer × Catalog
unfolding hw_code_re prefix upsert upserted is_revision any get_or
hw_revision_view method hw_code hw_rev body c =
    if not (method == "PUT")
    then (bad_request, c)
    else if not (hw_code_re hw_code)
    then (bad_request, c)
    else if not (any (λ h. h.hw_code == hw_code) c.codes)
    then (not_found, c)
    else revision_body hw_code hw_rev c body

-- `[class]{0,n}$`, where `$` accepts one line feed
unfoldable pub match_upto : (ℕ → Bool) → ℕ → String → Bool
match_upto p n String.[] = true
match_upto p zero (String.◌∷◌ c s) = eqb (code c) 10 && is_empty s
match_upto p (suc n) (String.◌∷◌ c s) =
    let rest = match_upto p n s in if p (code c) then rest else eqb (code c) 10 && is_empty s

-- VERSION_RE: the first of at most 32 characters is in the class
unfoldable pub version_re : String → Bool
unfolding match_upto version_char
version_re String.[] = false
version_re (String.◌∷◌ c s) = version_char (code c) && match_upto version_char 31 s

-- [0-9a-f]
unfoldable pub is_hex : ℕ → Bool
unfolding is_digit
is_hex c = is_digit c || (leb b'a' c && leb c b'f')

-- MAX_FIRMWARE_SIZE
abbrev pub max_firmware_size : ℕ
max_firmware_size = 8 * 1024 * 1024

-- A request of `_publish_firmware`: the form, the file and the query.
pub record Upload : Type 0 where
  pub hw_code : String
  pub version : String
  pub md5 : String
  pub notes : String
  pub hw_rev : String
  pub file : Option (List ℕ)
  pub overwrite : Bool

-- re.fullmatch(r"[0-9a-f]{32}", md5)
unfoldable pub is_digest : String → Bool
unfolding all_chars is_hex
is_digest md5 = eqb (len md5) 32 && all_chars is_hex md5

-- The image with the uploaded content; `uploaded_at` is set on the first upload only.
abbrev pub refreshed : Platform → Upload → List ℕ → Firmware → Firmware
refreshed env u content f = record f {
  file = content;
  md5 = env.md5_of content;
  size = length content;
  notes = u.notes;
}

abbrev pub new_image : Platform → ℕ → Upload → ℕ → List ℕ → Firmware
new_image env now u hw_rev content = record {
  hw_code = u.hw_code;
  hw_rev = hw_rev;
  version = u.version;
  file = content;
  md5 = env.md5_of content;
  size = length content;
  uploaded_at = now;
  notes = u.notes;
}

abbrev pub stored :
    Platform → ℕ → Upload → ℕ → List ℕ → Catalog → Option Firmware → Answer × Catalog
stored env now u hw_rev content c none =
    (created, record c { firmwares = c.firmwares ++ new_image env now u hw_rev content ∷ [] })
stored env now u hw_rev content c (some f) =
    if u.overwrite
    then (
      ok,
      record c {
        firmwares =
            update_where (is_image u.hw_code hw_rev u.version) (refreshed env u content)
              c.firmwares;
      },
    )
    else (conflict, c)

-- Behind the check of the size: the revision, the digest, and the image that is there.
unfoldable pub store_image : Platform → ℕ → Upload → ℤ → List ℕ → Catalog → Answer × Catalog
unfolding is_revision any is_image find update_where
store_image env now u (negsuc n) content c = (bad_request, c)
store_image env now u (pos hw_rev) content c =
    if not (any (is_revision u.hw_code hw_rev) c.revisions)
    then (bad_request, c)
    else if not (env.md5_of content == env.lower u.md5)
    then (bad_request, c)
    else stored env now u hw_rev content c (find (is_image u.hw_code hw_rev u.version) c.firmwares)

abbrev pub check_file : Platform → ℕ → Upload → ℤ → Catalog → Option (List ℕ) → Answer × Catalog
check_file env now u hw_rev c none = (bad_request, c)
check_file env now u hw_rev c (some content) =
    if ltb max_firmware_size (length content)
    then (bad_request, c)
    else store_image env now u hw_rev content c

abbrev pub check_revision : Platform → ℕ → Upload → Catalog → Option ℤ → Answer × Catalog
check_revision env now u c none = (bad_request, c)
check_revision env now u c (some hw_rev) =
    if not (is_digest (env.lower u.md5))
    then (bad_request, c)
    else check_file env now u hw_rev c u.file

-- _publish_firmware
unfoldable pub publish_firmware : Platform → ℕ → Upload → Catalog → Answer × Catalog
unfolding hw_code_re version_re is_digest store_image
publish_firmware env now u c =
    if not (hw_code_re u.hw_code)
    then (bad_request, c)
    else if not (version_re u.version)
    then (bad_request, c)
    else check_revision env now u c (env.parse_int u.hw_rev)

-- _extract_bearer_token
unfoldable pub extract_bearer_token : Platform → String → String
unfolding starts_with suffix
extract_bearer_token env header =
    if starts_with header "Bearer " then env.strip (suffix 7 header) else ""

-- publish_token_required: `expected` is the configured token, "" if there is none
unfoldable pub publish_token_required :
    Platform → String → String → (Catalog → Answer × Catalog) → Catalog → Answer × Catalog
unfolding extract_bearer_token
publish_token_required env expected header view c =
    let provided = extract_bearer_token env header in
    if is_empty expected
    then (publication_disabled, c)
    else if is_empty provided || not (provided == expected)
    then (unauthorized, c)
    else view c
