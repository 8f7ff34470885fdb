-- ===== src/File/Service.antt =====
-- FileServiceCore of filesvr/internal/service/file_service.h and file_service.cpp: its results, its
-- paths and its state. The clock, in seconds, and the sixteen bytes of a new identifier are
-- arguments.
pub mod Uploading
pub mod Download
use swift_chat_system.Common.{
  ℕ, zero, suc, ◌+◌, ◌-◌, ◌/◌, ◌%◌, Bool, true, false, not, ◌||◌, Option, none, some, List, [], ◌∷◌,
  ◌++◌, if◌then◌else◌, ltb, length, take,
}
use swift_chat_system.Common.Int.{ℤ, pos, negsuc, ◌+ℤ◌, ltb_ℤ, leb_ℤ, eq_ℤ}
use swift_chat_system.Common.Text.{Text, codes, text_eq, is_empty}
use swift_chat_system.ErrorCode.{
  ErrorCode, error_code_to_int, error_code_to_string, file_too_large, internal_error, upload_failed,
  file_expired, invalid_param, upload_incomplete,
}
use swift_chat_system.Json.{Json}
use swift_chat_system.Storage.{Db}
use swift_chat_system.Utils.Codec.{hex_char}
use swift_chat_system.File.Data.{FileMetaData, UploadSessionData}
use swift_chat_system.File.Store
use swift_chat_system.File.Disk.{Files}

-- The settings that the service reads.
pub record FileConfig : Type 0 where
  pub host : Text
  pub http_port : ℤ
  pub storage_path : Text
  pub max_file_size : ℤ
  pub upload_session_expire_seconds : ℤ

pub record InitUploadResult : Type 0 where
  pub success : Bool
  pub error_code : ℕ
  pub error : Text
  pub upload_id : Text
  pub expire_at : ℤ
  pub existing_file_id : Text

pub record GetUploadStateResult : Type 0 where
  pub found : Bool
  pub error_code : ℕ
  pub error : Text
  pub offset : ℤ
  pub file_size : ℤ
  pub completed : Bool
  pub file_id : Text
  pub expire_at : ℤ

pub record AppendChunkResult : Type 0 where
  pub success : Bool
  pub error_code : ℕ
  pub error : Text
  pub new_offset : ℤ

-- CompleteUploadResult, and UploadResult, which has the same fields.
pub record UploadResult : Type 0 where
  pub success : Bool
  pub error_code : ℕ
  pub error : Text
  pub file_id : Text
  pub file_url : Text
  pub thumbnail_url : Text

-- The database and the disk.
pub record World (D : Db) (F : Files) : Type 0 where
  pub db : D.State
  pub files : F.State

unfoldable pub hex_encode : Text → Text
hex_encode [] = []
hex_encode (b ∷ bs) = hex_char (b / 16 % 16) ∷ hex_char (b % 16) ∷ hex_encode bs

abbrev pub generate_file_id : Text → Text
generate_file_id bytes = hex_encode bytes

unfoldable pub build_storage_path : Text → Text → Text
build_storage_path root file_id =
    if ltb (length file_id) 2
    then root ++ (b'/' ∷ file_id)
    else root ++ (b'/' ∷ take 2 file_id ++ (b'/' ∷ file_id))

unfoldable pub get_temp_path : Text → Text → Text
get_temp_path root upload_id = root ++ (codes "/.tmp/" ++ upload_id)

-- `std::to_string` of an `int`: ten digits are enough.
unfoldable pub decimal : ℕ → ℕ → Text
decimal zero n = []
decimal (suc fuel) n =
    let high = decimal fuel (n / 10) in
    let digit = b'0' + n % 10 in if ltb n 10 then digit ∷ [] else high ++ digit ∷ []

abbrev pub to_string : ℤ → Text
to_string (pos n) = decimal 10 n
to_string (negsuc n) = b'-' ∷ decimal 10 (suc n)

unfoldable pub build_file_url : FileConfig → Text → Text
build_file_url config file_id =
    let host = if text_eq config.host (codes "0.0.0.0") then codes "127.0.0.1" else config.host in
    codes "http://" ++ (host ++ (b':' ∷ to_string config.http_port ++ (codes "/files/" ++ file_id)))

abbrev pub init_error : ErrorCode → InitUploadResult
init_error code = record {
  success = false;
  error_code = error_code_to_int code;
  error = error_code_to_string code;
  upload_id = [];
  expire_at = pos 0;
  existing_file_id = [];
}

abbrev pub chunk_error : ErrorCode → AppendChunkResult
chunk_error code = record {
  success = false;
  error_code = error_code_to_int code;
  error = error_code_to_string code;
  new_offset = pos 0;
}

abbrev pub upload_error : ErrorCode → UploadResult
upload_error code = record {
  success = false;
  error_code = error_code_to_int code;
  error = error_code_to_string code;
  file_id = [];
  file_url = [];
  thumbnail_url = [];
}

abbrev pub uploaded : FileConfig → Text → UploadResult
uploaded config file_id = record {
  success = true;
  error_code = 0;
  error = [];
  file_id = file_id;
  file_url = build_file_url config file_id;
  thumbnail_url = [];
}
