-- ===== src/File/Store.antt =====
-- RocksDBFileStore of filesvr/internal/store/file_store.cpp.
use swift_chat_system.Common.{Bool, false, Option, none, some, List, [], ◌∷◌, ◌>>=◌, if◌then◌else◌}
use swift_chat_system.Common.Int.{ℤ}
use swift_chat_system.Common.Text.{Text, codes, is_empty}
use swift_chat_system.Json.{Json}
use swift_chat_system.Storage.{Db, Op, put, delete, commit}
use swift_chat_system.Storage.Order.{Entries}
use swift_chat_system.File.Data.{
  FileMetaData, UploadSessionData, key_file, key_md5, key_upload, serialize_meta, deserialize_meta,
  serialize_upload, deserialize_upload,
}

module _ (D : Db) (J : Json) where
  abbrev pub meta_batch : FileMetaData → List Op
  meta_batch m =
      put (key_file m.file_id) (serialize_meta J m)
      ∷ (if is_empty m.md5 then [] else put (key_md5 m.md5) m.file_id ∷ [])

  unfoldable pub save : D.State → FileMetaData → D.State × Bool
  save s m = if is_empty m.file_id then (s, false) else commit D s (meta_batch m)

  unfoldable pub get_by_id : D.State → Text → Option FileMetaData
  get_by_id s file_id =
      if is_empty file_id
      then none
      else (do value ← D.get s (key_file file_id); deserialize_meta J value)

  unfoldable pub get_by_md5 : D.State → Text → Option FileMetaData
  get_by_md5 s md5 =
      if is_empty md5 then none else (do file_id ← D.get s (key_md5 md5); get_by_id s file_id)

  abbrev pub unlink_batch : FileMetaData → Text → List Op
  unlink_batch m file_id =
      delete (key_file file_id) ∷ (if is_empty m.md5 then [] else delete (key_md5 m.md5) ∷ [])

  -- Delete from the file that was found.
  unfoldable pub unlink_found : D.State → Text → Option FileMetaData → D.State × Bool
  unlink_found s file_id none = (s, false)
  unlink_found s file_id (some m) = commit D s (unlink_batch m file_id)

  unfoldable pub unlink : D.State → Text → D.State × Bool
  unlink s file_id =
      if is_empty file_id then (s, false) else unlink_found s file_id (get_by_id s file_id)

  unfoldable pub save_upload_session : D.State → UploadSessionData → D.State × Bool
  save_upload_session s session =
      if is_empty session.upload_id
      then (s, false)
      else commit D s (put (key_upload session.upload_id) (serialize_upload J session) ∷ [])

  unfoldable pub get_upload_session : D.State → Text → Option UploadSessionData
  get_upload_session s upload_id =
      if is_empty upload_id
      then none
      else (do value ← D.get s (key_upload upload_id); deserialize_upload J value)

  -- UpdateUploadSessionBytes from the session that was found.
  unfoldable pub bytes_found : D.State → ℤ → Option UploadSessionData → D.State × Bool
  bytes_found s bytes_written none = (s, false)
  bytes_found s bytes_written (some session) =
      save_upload_session s (record session { bytes_written = bytes_written })

  unfoldable pub update_upload_session_bytes : D.State → Text → ℤ → D.State × Bool
  update_upload_session_bytes s upload_id bytes_written =
      if is_empty upload_id
      then (s, false)
      else bytes_found s bytes_written (get_upload_session s upload_id)

  unfoldable pub delete_upload_session : D.State → Text → D.State × Bool
  delete_upload_session s upload_id =
      if is_empty upload_id then (s, false) else commit D s (delete (key_upload upload_id) ∷ [])

  -- The loop of ListAllUploadSessions: what cannot be read is left out.
  unfoldable pub read_uploads : Entries → List UploadSessionData
  read_uploads [] = []
  read_uploads ((k, v) ∷ es) = elim (deserialize_upload J v) [
    | none ↦ read_uploads es
    | some session ↦ session ∷ read_uploads es
  ]

  unfoldable pub list_all_upload_sessions : D.State → List UploadSessionData
  list_all_upload_sessions s = read_uploads (D.scan s (codes "upload:"))
