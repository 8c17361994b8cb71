-- ===== src/Media/Device.antt =====
-- src/device.rs: the validation of a capture device. The file system is a parameter.
use flo.Base.{
  Bool, ◌&&◌, not, Option, none, some, Str, codes, ◌++◌, starts_with, if◌then◌else◌, Outcome, ok,
  err,
}

pub record VideoDevice : Type 0 where
  pub path : Str

-- The texts of I/O errors are those of the standard library.
pub data DeviceValidationError : Type 0 where
  device_not_found : Str → DeviceValidationError
  io : Str → Str → DeviceValidationError
  not_a_character_device : Str → DeviceValidationError

-- What the file system says of a path: whether it exists, whether it is a character device or why
-- that cannot be told, and its file name where that is valid Unicode.
pub record DeviceFiles : Type 0 where
  pub exists : Str → Bool
  pub is_char_device : Str → Outcome Str Bool
  pub file_name : Str → Option Str

abbrev name_or_empty : Option Str → Str
name_or_empty none = codes ""
name_or_empty (some name) = name

abbrev checked : Str → Str → Outcome Str Bool → Outcome DeviceValidationError VideoDevice
checked candidate name (ok is_char) =
    if not (starts_with (codes "video") name && is_char)
    then err (not_a_character_device candidate)
    else ok (record { path = candidate })
checked candidate name (err e) = err (io candidate e)
checked candidate name Outcome.panic = Outcome.panic

unfoldable pub from_path : DeviceFiles → Str → Outcome DeviceValidationError VideoDevice
unfolding starts_with
from_path files candidate =
    if not (files.exists candidate)
    then err (device_not_found candidate)
    else checked candidate (name_or_empty (files.file_name candidate))
        (files.is_char_device candidate)

-- `Display`
unfoldable pub display : DeviceValidationError → Str
display (device_not_found p) = codes "video device not found: " ++ p
display (io p e) = codes "could not stat video device " ++ (p ++ (codes ": " ++ e))
display (not_a_character_device p) =
    p ++ codes " is not a usable V4L2 video device (expected a /dev/videoN char device)"

-- `source`
unfoldable pub source : DeviceValidationError → Option Str
source (io p e) = some e
source _ = none
