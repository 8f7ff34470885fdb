-- ===== src/Tests/Resent.antt =====
-- FileSvr at concrete inputs: a database that refuses one count of bytes.
use swift_chat_system.Common.{Bool, false, ◌||◌, none, List, [], ◌∷◌, if◌then◌else◌}
use swift_chat_system.Common.Int.{pos}
use swift_chat_system.Common.Text.{Text, codes, text_eq}
use swift_chat_system.Json.Codec.{codec}
use swift_chat_system.Storage.{Db, Op, put, delete}
use swift_chat_system.Storage.Memory.{memory, no_entries}
use swift_chat_system.File.Data
use swift_chat_system.File.Data.{UploadSessionData}
use swift_chat_system.File.Store
use swift_chat_system.File.Disk.Memory.{memory_files}
use swift_chat_system.File.Service
use swift_chat_system.File.Service.Uploading
use swift_chat_system.File.Service.{FileConfig, World, InitUploadResult, UploadResult}

abbrev config : FileConfig
config = record {
  host = codes "0.0.0.0";
  http_port = pos 8080;
  storage_path = codes "/d";
  max_file_size = pos 100;
  upload_session_expire_seconds = pos 60;
}

-- The session with two bytes, as it would be stored.
abbrev two_bytes : Text
two_bytes = Data.serialize_upload codec (record {
  upload_id = codes "01";
  user_id = codes "u";
  file_name = codes "n";
  content_type = codes "t";
  file_size = pos 3;
  md5 = [];
  msg_id = [];
  temp_path = codes "/d/.tmp/01";
  bytes_written = pos 2;
  expire_at = pos 67;
})

abbrev is_refused : List Op → Bool
is_refused [] = false
is_refused (put k v ∷ ops) = text_eq v two_bytes || is_refused ops
is_refused (delete k ∷ ops) = is_refused ops

-- The database in memory, but for a batch with that value.
abbrev partial : Db
partial = record memory { write = λ s ops. if is_refused ops then none else memory.write s ops }

abbrev empty : World partial memory_files
empty = record { db = no_entries; files = λ p. none }

abbrev begin : World partial memory_files × InitUploadResult
begin =
    Uploading.init_upload partial codec memory_files config empty (codes "u") (codes "n")
      (codes "t") (pos 3) [] [] (1 ∷ []) (pos 7)

-- A part of two bytes, then one of all three from the old count.
abbrev failed : World partial memory_files
failed =
    (Uploading.append_chunk partial codec memory_files config begin.0 (codes "01") (codes "ab")).0

abbrev sent : World partial memory_files
sent =
    (Uploading.append_chunk partial codec memory_files config failed (codes "01") (codes "abc")).0

abbrev finish : World partial memory_files × UploadResult
finish =
    Uploading.complete_upload partial codec memory_files config sent (codes "01") (3 ∷ []) (pos 9)
