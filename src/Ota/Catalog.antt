-- ===== src/Ota/Catalog.antt =====
-- The tables of web/ota/models.py, and the key of a published firmware.
use sensor_server.Prelude.{ℕ, String, Bool, ◌&&◌, List, eqb, ◌==◌}
use sensor_server.Value.{Json}

pub record HardwareCode : Type 0 where
  pub hw_code : String
  pub platform : String
  pub description : String
  pub modules : List String

pub record HardwareRevision : Type 0 where
  pub hw_code : String
  pub hw_rev : ℕ
  pub description : String
  -- null, or the number as it was given
  pub bat_divider_nominal : Json
  pub notes : String

pub record Firmware : Type 0 where
  pub hw_code : String
  pub hw_rev : ℕ
  pub version : String
  -- The stored binary.
  pub file : List ℕ
  pub md5 : String
  pub size : ℕ
  pub uploaded_at : ℕ
  pub notes : String

pub record Catalog : Type 0 where
  pub codes : List HardwareCode
  pub revisions : List HardwareRevision
  pub firmwares : List Firmware

-- unique_hw_code_rev
unfoldable pub is_revision : String → ℕ → HardwareRevision → Bool
is_revision hw_code hw_rev r = (r.hw_code == hw_code) && eqb r.hw_rev hw_rev

-- filter(hardware_revision=rev, version=version), unique_firmware_rev_version
unfoldable pub is_image : String → ℕ → String → Firmware → Bool
is_image hw_code hw_rev version f =
    (f.hw_code == hw_code) && eqb f.hw_rev hw_rev && (f.version == version)
