-- ===== src/Ota/Listing.antt =====
-- The listings of web/ota/views.py: `_list_firmwares`, `firmware_latest_view` and the groups of
-- `firmware_overview_view`.
use sensor_server.Prelude.{
  ℕ, ◌+◌, String, Bool, not, ◌&&◌, ◌||◌, ℤ, pos, Option, none, some, List, [], ◌∷◌, length, leb,
  eqb, eqb_ℤ, ◌==◌, map, select, if◌then◌else◌,
}
use sensor_server.Text.{is_empty}
use sensor_server.Value.{Dict, get}
use sensor_server.Store.{Device}
use sensor_server.World.Order.{order_by}
use sensor_server.Ota.Catalog.{HardwareCode, HardwareRevision, Firmware, Catalog}
use sensor_server.Ota.Publish.{Platform}

-- _firmware_dict; the storage knows the URL of the file
pub record FirmwareDict : Type 0 where
  pub hw_code : String
  pub hw_rev : ℕ
  pub version : String
  pub md5 : String
  pub size : ℕ
  pub url : Option String
  pub uploaded_at : ℕ
  pub notes : String

unfoldable pub firmware_dict : (Firmware → Option String) → Firmware → FirmwareDict
firmware_dict url_of f = record {
  hw_code = f.hw_code;
  hw_rev = f.hw_rev;
  version = f.version;
  md5 = f.md5;
  size = f.size;
  url = url_of f;
  uploaded_at = f.uploaded_at;
  notes = f.notes;
}

pub data Listing (A : Type 0) : Type 0 where
  listed : A → Listing A
  bad_request : String → Listing A
  not_found : String → Listing A

unfoldable pub query_text : String → Dict String → String
unfolding get
query_text key query = elim (get key query) [ none ↦ "" | some v ↦ v ]

-- The order of Firmware.Meta, under the collation of the database: by code and revision, as
-- HardwareRevision.Meta orders them, and the latest first.
unfoldable pub in_meta_order : (String → String → Bool) → List Firmware → List Firmware
unfolding order_by
in_meta_order text_le firmwares =
    order_by
      (λ f g.
        if f.hw_code == g.hw_code
        then (if eqb f.hw_rev g.hw_rev
            then leb g.uploaded_at f.uploaded_at
            else leb f.hw_rev g.hw_rev)
        else text_le f.hw_code g.hw_code)
      firmwares

-- order_by("-uploaded_at")
unfoldable pub newest_first : List Firmware → List Firmware
unfolding order_by
newest_first firmwares = order_by (λ f g. leb g.uploaded_at f.uploaded_at) firmwares

abbrev pub of_code : String → Firmware → Bool
of_code hw_code f = is_empty hw_code || (f.hw_code == hw_code)

unfoldable pub list_of_revision :
    (Firmware → Option String) → List Firmware → Option ℤ → Listing (List FirmwareDict)
unfolding firmware_dict select
list_of_revision url_of firmwares none = bad_request "'hw_rev' must be an integer."
list_of_revision url_of firmwares (some n) =
    listed (map (firmware_dict url_of) (select (λ f. eqb_ℤ (pos f.hw_rev) n) firmwares))

-- _list_firmwares
unfoldable pub list_firmwares :
    Platform
    → (String → String → Bool)
    → (Firmware → Option String)
    → Catalog
    → Dict String
    → Listing (List FirmwareDict)
unfolding get firmware_dict select in_meta_order query_text list_of_revision
list_firmwares env text_le url_of c query =
    let found = in_meta_order text_le (select (of_code (query_text "hw_code" query)) c.firmwares) in
    let hw_rev = query_text "hw_rev" query in
    if is_empty hw_rev
    then listed (map (firmware_dict url_of) found)
    else list_of_revision url_of found (env.parse_int hw_rev)

unfoldable pub first_firmware : (Firmware → Option String) → List Firmware → Listing FirmwareDict
unfolding firmware_dict
first_firmware url_of [] = not_found "No firmware published for this (hw_code, hw_rev)."
first_firmware url_of (f ∷ fs) = listed (firmware_dict url_of f)

unfoldable pub latest_of_revision :
    (Firmware → Option String) → String → List Firmware → Option ℤ → Listing FirmwareDict
unfolding select newest_first first_firmware
latest_of_revision url_of hw_code firmwares none = bad_request "'hw_rev' must be an integer."
latest_of_revision url_of hw_code firmwares (some n) =
    first_firmware url_of
      (newest_first (select (λ f. (f.hw_code == hw_code) && eqb_ℤ (pos f.hw_rev) n) firmwares))

-- firmware_latest_view, behind the token check
unfoldable pub firmware_latest_view :
    Platform → (Firmware → Option String) → String → Catalog → Dict String → Listing FirmwareDict
unfolding get select newest_first query_text latest_of_revision
firmware_latest_view env url_of method c query =
    let hw_code = query_text "hw_code" query in
    let hw_rev = query_text "hw_rev" query in
    if not (method == "GET")
    then bad_request "Use GET."
    else if is_empty hw_code || is_empty hw_rev
    then bad_request "'hw_code' and 'hw_rev' are required."
    else latest_of_revision url_of hw_code c.firmwares (env.parse_int hw_rev)

-- The context of firmware_overview_view. The latest image is the first one of its list.
pub record RevisionGroup : Type 0 where
  pub rev : HardwareRevision
  pub firmwares : List Firmware

pub record CodeGroup : Type 0 where
  pub code : HardwareCode
  pub revisions : List RevisionGroup
  pub device_count : ℕ
  pub firmware_count : ℕ

unfoldable pub revision_group : List Firmware → HardwareRevision → RevisionGroup
unfolding newest_first select
revision_group firmwares r = record {
  rev = r;
  firmwares =
      newest_first (select (λ f. (f.hw_code == r.hw_code) && eqb f.hw_rev r.hw_rev) firmwares);
}

abbrev pub total : List RevisionGroup → ℕ
total [] = 0
total (g ∷ gs) = length g.firmwares + total gs

abbrev pub has_code : String → Device → Bool
has_code hw_code d = elim d.hardware_code [ none ↦ Bool.false | some c ↦ c == hw_code ]

unfoldable pub code_group : List Device → Catalog → HardwareCode → CodeGroup
unfolding revision_group select order_by
code_group devices c h =
    let groups = map (revision_group c.firmwares) (
      order_by (λ r s. leb r.hw_rev s.hw_rev) (select (λ r. r.hw_code == h.hw_code) c.revisions)) in
    record {
      code = h;
      revisions = groups;
      device_count = length (select (has_code h.hw_code) devices);
      firmware_count = total groups;
    }

-- firmware_overview_view, behind its role check
unfoldable pub firmware_overview_view :
    (String → String → Bool) → List Device → Catalog → List CodeGroup
unfolding code_group order_by
firmware_overview_view text_le devices c =
    map (code_group devices c) (order_by (λ g h. text_le g.hw_code h.hw_code) c.codes)
