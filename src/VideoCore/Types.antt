-- ===== src/VideoCore/Types.antt =====
-- video-core/include/common/types.hpp: result codes, captured frames and encoded packets.
use direct_link.Base.{ℕ, Bool, String, ℤ}

-- `default: return "Unknown error"` of the source serves values outside the enumeration only.
pub data Result : Type 0 where
  success error_invalid_parameter error_device_not_found error_init_failed : Result
  error_encode_failed error_capture_failed error_decode_failed error_no_data : Result

pub Result-discrete : Discrete Result
Result-discrete = hlevel

unfoldable pub result_to_string : Result → String
result_to_string Result.success = "Success"
result_to_string Result.error_invalid_parameter = "Invalid parameter"
result_to_string Result.error_device_not_found = "Device not found"
result_to_string Result.error_init_failed = "Initialization failed"
result_to_string Result.error_encode_failed = "Encode failed"
result_to_string Result.error_capture_failed = "Capture failed"
result_to_string Result.error_decode_failed = "Decode failed"
result_to_string Result.error_no_data = "No data available"

-- The pixel formats that the code names; `other` stands for the rest of `AVPixelFormat`.
pub data PixelFormat : Type 0 where
  none yuv420p yuvj420p yuv422p yuvj422p yuv444p yuvj444p : PixelFormat
  other : ℕ → PixelFormat

-- `AVFrame`: the fields that the code reads or writes; `image` stands for the planes.
pub record AvFrame {ℓ} (I : Type ℓ) : Type ℓ where
  pub image : I
  pub format : PixelFormat
  pub width : ℤ
  pub height : ℤ
  pub full_range : Bool  -- color_range == AVCOL_RANGE_JPEG
  pub has_stride : Bool  -- linesize[0] != 0
  pub pts : ℤ
  pub intra : Bool  -- pict_type == AV_PICTURE_TYPE_I

pub record Frame {ℓ} (F : Type ℓ) : Type ℓ where
  pub frame : F
  pub pts : ℤ
  pub width : ℤ
  pub height : ℤ
  pub format : PixelFormat

-- `packet` stands for the `AVPacket` that the source keeps here.
pub record Packet {ℓ} (P : Type ℓ) : Type ℓ where
  pub packet : P
  pub pts : ℤ  -- nanoseconds
  pub dts : ℤ  -- nanoseconds
  pub size : ℤ
  pub is_keyframe : Bool
