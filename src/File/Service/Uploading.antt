-- ===== src/File/Service/Uploading.antt =====
-- FileServiceCore of filesvr/internal/service/file_service.cpp: uploads in parts and as a whole.
use swift_chat_system.Common.{
  true, false, not, ◌||◌, Option, none, some, [], ◌++◌, if◌then◌else◌, length,
}
use swift_chat_system.Common.Int.{ℤ, pos, ◌+ℤ◌, ltb_ℤ, leb_ℤ, eq_ℤ}
use swift_chat_system.Common.Text.{Text, codes}
use swift_chat_system.ErrorCode.{
  error_code_to_int, error_code_to_string, file_too_large, internal_error, upload_failed,
  file_expired, invalid_param, upload_incomplete,
}
use swift_chat_system.Json.{Json}
use swift_chat_system.Storage.{Db}
use swift_chat_system.File.Data.{FileMetaData, UploadSessionData}
use swift_chat_system.File.Store
use swift_chat_system.File.Disk.{Files}
use swift_chat_system.File.Service.{
  FileConfig, InitUploadResult, GetUploadStateResult, AppendChunkResult, UploadResult, World,
  generate_file_id, build_storage_path, get_temp_path, init_error, chunk_error, upload_error,
  uploaded,
}

module _ (D : Db) (J : Json) (F : Files) (config : FileConfig) where
  -- InitUpload of a session that is new.
  unfoldable pub init_new : World D F → UploadSessionData → World D F × InitUploadResult
  init_new w session =
      let made = F.make_dir w.files (config.storage_path ++ codes "/.tmp") in
      let w' : World D F = record w { files = made.0 } in
      let saved = Store.save_upload_session D J w'.db session in
      if not made.1
      then (w', init_error internal_error)
      else if not saved.1
      then (record w' { db = saved.0 }, init_error upload_failed)
      else (
        record w' { db = saved.0 },
        record {
          success = true;
          error_code = 0;
          error = [];
          upload_id = session.upload_id;
          expire_at = session.expire_at;
          existing_file_id = [];
        },
      )

  abbrev pub new_session : Text → Text → Text → ℤ → Text → Text → Text → ℤ → UploadSessionData
  new_session user_id file_name content_type file_size md5 msg_id bytes now = record {
    upload_id = generate_file_id bytes;
    user_id = user_id;
    file_name = file_name;
    content_type = content_type;
    file_size = file_size;
    md5 = md5;
    msg_id = msg_id;
    temp_path = get_temp_path config.storage_path (generate_file_id bytes);
    bytes_written = pos 0;
    expire_at = now +ℤ config.upload_session_expire_seconds;
  }

  -- `GetByMd5` of a text that is empty finds nothing.
  unfoldable pub init_upload :
      World D F → Text → Text → Text → ℤ → Text → Text → Text → ℤ → World D F × InitUploadResult
  init_upload w user_id file_name content_type file_size md5 msg_id bytes now =
      let session = new_session user_id file_name content_type file_size md5 msg_id bytes now in
      let fresh = init_new w session in
      if leb_ℤ file_size (pos 0) || ltb_ℤ config.max_file_size file_size
      then (w, init_error file_too_large)
      else elim (Store.get_by_md5 D J w.db md5) [
        | none ↦ fresh
        | some existing ↦ (
          w,
          record {
            success = true;
            error_code = 0;
            error = [];
            upload_id = existing.file_id;
            expire_at = session.expire_at;
            existing_file_id = existing.file_id;
          },
        )
      ]

  unfoldable pub get_upload_state : World D F → Text → GetUploadStateResult
  get_upload_state w upload_id = elim (Store.get_upload_session D J w.db upload_id) [
    | none ↦ record {
      found = false;
      error_code = error_code_to_int file_expired;
      error = error_code_to_string file_expired;
      offset = pos 0;
      file_size = pos 0;
      completed = false;
      file_id = [];
      expire_at = pos 0;
    }
    | some s ↦ record {
      found = true;
      error_code = 0;
      error = [];
      offset = s.bytes_written;
      file_size = s.file_size;
      completed = false;
      file_id = [];
      expire_at = s.expire_at;
    }
  ]

  -- AppendChunk from the session that was found.
  unfoldable pub append_found :
      World D F → Text → Text → Option UploadSessionData → World D F × AppendChunkResult
  append_found w upload_id content none = (w, chunk_error file_expired)
  append_found w upload_id content (some s) =
      let offset = s.bytes_written +ℤ pos (length content) in
      let opened = F.open_append (F.make_parents w.files s.temp_path).0 s.temp_path in
      let written = F.write opened.0 s.temp_path content in
      let flushed = F.flush written.0 s.temp_path in
      let counted = Store.update_upload_session_bytes D J w.db upload_id offset in
      if ltb_ℤ s.file_size offset
      then (w, chunk_error invalid_param)
      else if not opened.1
      then (record w { files = opened.0 }, chunk_error upload_failed)
      else if not written.1
      then (record w { files = written.0 }, chunk_error upload_failed)
      else if not flushed.1
      then (record w { files = flushed.0 }, chunk_error upload_failed)
      else if not counted.1
      then (record { db = counted.0; files = flushed.0 }, chunk_error upload_failed)
      else (
        record { db = counted.0; files = flushed.0 },
        record { success = true; error_code = 0; error = []; new_offset = offset },
      )

  unfoldable pub append_chunk : World D F → Text → Text → World D F × AppendChunkResult
  append_chunk w upload_id content =
      append_found w upload_id content (Store.get_upload_session D J w.db upload_id)

  abbrev pub new_meta : UploadSessionData → Text → ℤ → FileMetaData
  new_meta s file_id now = record {
    file_id = file_id;
    file_name = s.file_name;
    content_type = s.content_type;
    file_size = s.file_size;
    md5 = s.md5;
    uploader_id = s.user_id;
    storage_path = build_storage_path config.storage_path file_id;
    uploaded_at = now;
  }

  -- The end of CompleteUpload: the file is in its place, and its session is deleted if it can be.
  unfoldable pub publish :
      World D F → Text → UploadSessionData → Text → ℤ → World D F × UploadResult
  publish w upload_id s file_id now =
      let saved = Store.save D J w.db (new_meta s file_id now) in
      if not saved.1
      then (
        record {
          db = saved.0;
          files = (F.remove w.files (build_storage_path config.storage_path file_id)).0;
        },
        upload_error upload_failed,
      )
      else (
        record w { db = (Store.delete_upload_session D J saved.0 upload_id).0 },
        uploaded config file_id,
      )

  unfoldable pub complete_found :
      World D F → Text → Text → ℤ → Option UploadSessionData → World D F × UploadResult
  complete_found w upload_id file_id now none = (w, upload_error file_expired)
  complete_found w upload_id file_id now (some s) =
      let path = build_storage_path config.storage_path file_id in
      let made = F.make_parents w.files path in
      let moved = F.rename made.0 s.temp_path path in
      let published = publish (record w { files = moved.0 }) upload_id s file_id now in
      if not (eq_ℤ s.bytes_written s.file_size)
      then (w, upload_error upload_incomplete)
      else if not made.1
      then (record w { files = made.0 }, upload_error internal_error)
      else if not moved.1
      then (record w { files = moved.0 }, upload_error upload_failed)
      else published

  unfoldable pub complete_upload : World D F → Text → Text → ℤ → World D F × UploadResult
  complete_upload w upload_id bytes now =
      complete_found w upload_id (generate_file_id bytes) now
        (Store.get_upload_session D J w.db upload_id)

  abbrev pub upload_meta : Text → Text → Text → Text → Text → ℤ → FileMetaData
  upload_meta user_id file_name content_type content file_id now = record {
    file_id = file_id;
    file_name = file_name;
    content_type = content_type;
    file_size = pos (length content);
    md5 = [];
    uploader_id = user_id;
    storage_path = build_storage_path config.storage_path file_id;
    uploaded_at = now;
  }

  -- The stream is flushed when it is closed, after the file is in the database.
  unfoldable pub upload :
      World D F → Text → Text → Text → Text → Text → ℤ → World D F × UploadResult
  upload w user_id file_name content_type content bytes now =
      let file_id = generate_file_id bytes in
      let path = build_storage_path config.storage_path file_id in
      let made = F.make_parents w.files path in
      let opened = F.open_new made.0 path in
      let written = F.write opened.0 path content in
      let saved =
        Store.save D J w.db (upload_meta user_id file_name content_type content file_id now) in
      if ltb_ℤ config.max_file_size (pos (length content))
      then (w, upload_error file_too_large)
      else if not made.1
      then (record w { files = made.0 }, upload_error internal_error)
      else if not opened.1
      then (record w { files = opened.0 }, upload_error upload_failed)
      else if not written.1
      then (record w { files = (F.remove written.0 path).0 }, upload_error upload_failed)
      else if not saved.1
      then (
        record { db = saved.0; files = (F.remove written.0 path).0 },
        upload_error upload_failed,
      )
      else (record { db = saved.0; files = (F.flush written.0 path).0 }, uploaded config file_id)
