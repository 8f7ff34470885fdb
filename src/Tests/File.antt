-- ===== src/Tests/File.antt =====
-- FileSvr at concrete inputs: a file of three bytes in two parts.
use swift_chat_system.Common.{◌≡◌, refl, true, none, some, [], ◌∷◌, ap, arith}
use swift_chat_system.Common.Int.{pos, negsuc, ltb_ℤ}
use swift_chat_system.Common.Text.{Text, codes, text_eq, text_lt, starts_with}
use swift_chat_system.Json.{find}
use swift_chat_system.Json.Codec.{codec, codec-IsLawful}
use swift_chat_system.Storage.{commit}
use swift_chat_system.Storage.Memory.{memory, memory-IsLawful, no_entries}
use swift_chat_system.Utils.Codec.{hex_char}
use swift_chat_system.File.Data
use swift_chat_system.File.Data.{UploadSessionData, FileMetaData}
use swift_chat_system.File.Store
use swift_chat_system.File.Disk.Memory.{memory_files, memory_files-IsLawful}
use swift_chat_system.File.Service
use swift_chat_system.File.Service.Uploading
use swift_chat_system.File.Service.{FileConfig, World, InitUploadResult, UploadResult, chunk_error}
use swift_chat_system.File.Service.Download.{
  Part, cleanup_expired_sessions, expire, expire_all, read_file, read_file_range,
}
use swift_chat_system.File.Uploads.Progress.{here, begun, chunk, cleaned, other, uploaded_whole}
use swift_chat_system.File.Uploads.Complete.{complete_upload-read_file}
use swift_chat_system.File.Range.{read_file_range-read_file}

abbrev config : FileConfig
config = record {
  host = codes "0.0.0.0";
  http_port = pos 8080;
  storage_path = codes "/d";
  max_file_size = pos 100;
  upload_session_expire_seconds = pos 60;
}

abbrev empty : World memory memory_files
empty = record { db = no_entries; files = λ p. none }

abbrev begin : World memory memory_files × InitUploadResult
begin =
    Uploading.init_upload memory codec memory_files config empty (codes "u") (codes "n") (codes "t")
      (pos 3) [] [] (1 ∷ []) (pos 7)

abbrev first : World memory memory_files
first =
    (Uploading.append_chunk memory codec memory_files config begin.0 (codes "01") (codes "ab")).0

-- Another client uploads a whole file.
abbrev amid : World memory memory_files
amid =
    (Uploading.upload memory codec memory_files config first (codes "v") (codes "m") (codes "t")
      (codes "xyz") (2 ∷ []) (pos 8)).0

-- The clean-up runs before the upload expires.
abbrev tidied : World memory memory_files
tidied = cleanup_expired_sessions memory codec memory_files amid (pos 20)

abbrev second : World memory memory_files
second = (Uploading.append_chunk memory codec memory_files config tidied (codes "01") (codes "c")).0

abbrev finish : World memory memory_files × UploadResult
finish =
    Uploading.complete_upload memory codec memory_files config second (codes "01") (3 ∷ []) (pos 9)

abbrev answer : UploadResult
answer = record {
  success = true;
  error_code = 0;
  error = [];
  file_id = codes "03";
  file_url = codes "http://127.0.0.1:8080/files/03";
  thumbnail_url = [];
}

upload_begins : begin.1.success ≡ true
unfolding memory codec no_entries commit text_eq text_lt hex_char Uploading.init_upload
    Uploading.init_new Service.hex_encode Store.get_by_md5 Store.save_upload_session Data.key_upload
    Data.serialize_upload
upload_begins = refl

upload_finishes : finish.1 ≡ answer
unfolding memory codec no_entries commit text_eq text_lt hex_char find Uploading.init_upload
    Uploading.init_new Service.hex_encode Uploading.append_chunk Uploading.append_found
    Uploading.upload Uploading.complete_upload Uploading.complete_found Uploading.publish
    Service.get_temp_path Service.build_storage_path Service.build_file_url Service.decimal
    Store.get_by_md5 Store.get_by_id Store.save Store.save_upload_session Store.get_upload_session
    Store.update_upload_session_bytes Store.bytes_found Store.delete_upload_session Data.key_upload
    Data.key_file Data.key_md5 Data.serialize_upload Data.deserialize_upload Data.serialize_meta
    Data.deserialize_meta cleanup_expired_sessions expire expire_all Store.list_all_upload_sessions
    Store.read_uploads starts_with
upload_finishes = refl

parts_arrive :
    ((Uploading.append_chunk memory codec memory_files config begin.0
        (codes "01")
        (codes "ab")).1.success
      ≡ true)
    × ((Uploading.append_chunk memory codec memory_files config tidied
          (codes "01")
          (codes "c")).1.success
        ≡ true)
unfolding memory codec no_entries commit text_eq text_lt hex_char find Uploading.init_upload
    Uploading.init_new Service.hex_encode Uploading.append_chunk Uploading.append_found
    Uploading.upload Uploading.complete_upload Uploading.complete_found Uploading.publish
    Service.get_temp_path Service.build_storage_path Service.build_file_url Service.decimal
    Store.get_by_md5 Store.get_by_id Store.save Store.save_upload_session Store.get_upload_session
    Store.update_upload_session_bytes Store.bytes_found Store.delete_upload_session Data.key_upload
    Data.key_file Data.key_md5 Data.serialize_upload Data.deserialize_upload Data.serialize_meta
    Data.deserialize_meta cleanup_expired_sessions expire expire_all Store.list_all_upload_sessions
    Store.read_uploads starts_with
parts_arrive = (refl, refl)

upload_named : begin.1.upload_id ≡ codes "01"
unfolding memory codec no_entries commit text_eq text_lt hex_char find Uploading.init_upload
    Uploading.init_new Service.hex_encode Uploading.append_chunk Uploading.append_found
    Uploading.upload Uploading.complete_upload Uploading.complete_found Uploading.publish
    Service.get_temp_path Service.build_storage_path Service.build_file_url Service.decimal
    Store.get_by_md5 Store.get_by_id Store.save Store.save_upload_session Store.get_upload_session
    Store.update_upload_session_bytes Store.bytes_found Store.delete_upload_session Data.key_upload
    Data.key_file Data.key_md5 Data.serialize_upload Data.deserialize_upload Data.serialize_meta
    Data.deserialize_meta cleanup_expired_sessions expire expire_all Store.list_all_upload_sessions
    Store.read_uploads starts_with
upload_named = refl

no_digest : Store.get_by_md5 memory codec no_entries [] ≡ none
unfolding Store.get_by_md5
no_digest = refl

no_key : (k : Text) → memory.get no_entries k ≡ none
unfolding memory no_entries
no_key k = refl

abbrev begun_session : UploadSessionData
begun_session = record {
  upload_id = codes "01";
  user_id = codes "u";
  file_name = codes "n";
  content_type = codes "t";
  file_size = pos 3;
  md5 = [];
  msg_id = [];
  temp_path = codes "/d/.tmp/01";
  bytes_written = pos 2;
  expire_at = pos 67;
}

session_amid : Store.get_upload_session memory codec amid.db (codes "01") ≡ some begun_session
unfolding memory codec no_entries commit text_eq text_lt hex_char find Uploading.init_upload
    Uploading.init_new Service.hex_encode Uploading.append_chunk Uploading.append_found
    Uploading.upload Uploading.complete_upload Uploading.complete_found Uploading.publish
    Service.get_temp_path Service.build_storage_path Service.build_file_url Service.decimal
    Store.get_by_md5 Store.get_by_id Store.save Store.save_upload_session Store.get_upload_session
    Store.update_upload_session_bytes Store.bytes_found Store.delete_upload_session Data.key_upload
    Data.key_file Data.key_md5 Data.serialize_upload Data.deserialize_upload Data.serialize_meta
    Data.deserialize_meta cleanup_expired_sessions expire expire_all Store.list_all_upload_sessions
    Store.read_uploads starts_with
session_amid = refl

not_expired :
    (x : UploadSessionData)
    → Store.get_upload_session memory codec amid.db (codes "01") ≡ some x
    → ltb_ℤ (pos 20) x.expire_at ≡ true
not_expired x e = ground (arith, session_amid)

complete_upload-read_file_example :
    (read_file memory codec memory_files finish.0 finish.1.file_id
      ≡ some (record { content = codes "abc"; content_type = codes "t"; file_name = codes "n" }))
    × (pos 3 ≡ pos 3)
unfolding memory codec no_entries commit text_eq text_lt hex_char find Uploading.init_upload
    Uploading.init_new Service.hex_encode Uploading.append_chunk Uploading.append_found
    Uploading.upload Uploading.complete_upload Uploading.complete_found Uploading.publish
    Service.get_temp_path Service.build_storage_path Service.build_file_url Service.decimal
    Store.get_by_md5 Store.get_by_id Store.save Store.save_upload_session Store.get_upload_session
    Store.update_upload_session_bytes Store.bytes_found Store.delete_upload_session Data.key_upload
    Data.key_file Data.key_md5 Data.serialize_upload Data.deserialize_upload Data.serialize_meta
    Data.deserialize_meta cleanup_expired_sessions expire expire_all Store.list_all_upload_sessions
    Store.read_uploads starts_with
complete_upload-read_file_example =
    complete_upload-read_file memory codec memory_files config memory-IsLawful codec-IsLawful
      memory_files-IsLawful empty empty begin.0 second finish.0 (codes "u") (codes "n") (codes "t")
      (pos 3) [] [] (1 ∷ []) (pos 7) (codes "abc") (3 ∷ []) (pos 9) begin.1 finish.1 no_key here
      no_digest refl refl upload_begins
      (chunk (codes "c")
        (other
          (other (chunk (codes "ab") begun parts_arrive.0)
            (uploaded_whole (codes "v") (codes "m") (codes "t") (codes "xyz") (2 ∷ []) (pos 8)))
          (cleaned (pos 20) not_expired))
        parts_arrive.1)
      refl (ap (λ a. a.success) upload_finishes)

abbrev meta : FileMetaData
meta = record {
  file_id = codes "03";
  file_name = codes "n";
  content_type = codes "t";
  file_size = pos 3;
  md5 = [];
  uploader_id = codes "u";
  storage_path = codes "/d/03/03";
  uploaded_at = pos 9;
}

file_listed : Store.get_by_id memory codec finish.0.db (codes "03") ≡ some meta
unfolding memory codec no_entries commit text_eq text_lt hex_char find Uploading.init_upload
    Uploading.init_new Service.hex_encode Uploading.append_chunk Uploading.append_found
    Uploading.upload Uploading.complete_upload Uploading.complete_found Uploading.publish
    Service.get_temp_path Service.build_storage_path Service.build_file_url Service.decimal
    Store.get_by_md5 Store.get_by_id Store.save Store.save_upload_session Store.get_upload_session
    Store.update_upload_session_bytes Store.bytes_found Store.delete_upload_session Data.key_upload
    Data.key_file Data.key_md5 Data.serialize_upload Data.deserialize_upload Data.serialize_meta
    Data.deserialize_meta cleanup_expired_sessions expire expire_all Store.list_all_upload_sessions
    Store.read_uploads starts_with
file_listed = refl

abbrev whole : Part
whole = record { content = codes "abc"; content_type = codes "t"; file_name = codes "n" }

file_read : read_file memory codec memory_files finish.0 (codes "03") ≡ some whole
unfolding memory codec no_entries commit text_eq text_lt hex_char find Uploading.init_upload
    Uploading.init_new Service.hex_encode Uploading.append_chunk Uploading.append_found
    Uploading.upload Uploading.complete_upload Uploading.complete_found Uploading.publish
    Service.get_temp_path Service.build_storage_path Service.build_file_url Service.decimal
    Store.get_by_md5 Store.get_by_id Store.save Store.save_upload_session Store.get_upload_session
    Store.update_upload_session_bytes Store.bytes_found Store.delete_upload_session Data.key_upload
    Data.key_file Data.key_md5 Data.serialize_upload Data.deserialize_upload Data.serialize_meta
    Data.deserialize_meta cleanup_expired_sessions expire expire_all Store.list_all_upload_sessions
    Store.read_uploads starts_with read_file
file_read = refl

read_file_range-read_file_example :
    (read_file_range memory codec memory_files finish.0 (codes "03") (pos 1) (pos 9)
      ≡ some (record whole { content = codes "bc" }, pos 3))
    × (read_file_range memory codec memory_files finish.0 (codes "03") (pos 1) (negsuc 9)
        ≡ some (record whole { content = codes "bc" }, pos 3))
read_file_range-read_file_example =
    read_file_range-read_file memory codec memory_files finish.0 (codes "03") meta whole 1 9
      file_listed file_read refl (omega arith) (omega arith)
