-- ===== src/File/Service/Download.antt =====
-- FileServiceCore of filesvr/internal/service/file_service.cpp: reading, deletion and the clean-up.
use swift_chat_system.Common.{
  ℕ, Bool, true, false, not, ◌||◌, Option, none, some, List, [], ◌∷◌, ◌++◌, ◌>>=◌, if◌then◌else◌,
  leb, ◌==◌, length, take, drop,
}
use swift_chat_system.Common.Int.{ℤ, pos, ◌+ℤ◌, ◌-ℤ◌, pos_part, ltb_ℤ, leb_ℤ, to_int64}
use swift_chat_system.Common.Text.{Text, codes, text_eq}
use swift_chat_system.ErrorCode.{
  error_code_to_int, error_code_to_string, file_too_large, file_not_found,
}
use swift_chat_system.Json.{Json}
use swift_chat_system.Storage.{Db}
use swift_chat_system.File.Data.{FileMetaData, UploadSessionData}
use swift_chat_system.File.Store
use swift_chat_system.File.Disk.{Files}
use swift_chat_system.File.Service.{FileConfig, World, build_file_url}
use swift_chat_system.File.Service.Uploading.{init_upload}

pub record FileUrlResult : Type 0 where
  pub success : Bool
  pub error_code : ℕ
  pub error : Text
  pub file_url : Text
  pub file_name : Text
  pub file_size : ℤ
  pub content_type : Text
  pub expire_at : ℤ

pub record UploadTokenResult : Type 0 where
  pub success : Bool
  pub error_code : ℕ
  pub error : Text
  pub upload_token : Text
  pub upload_url : Text
  pub expire_at : ℤ

-- What ReadFile gives out where it returns true.
pub record Part : Type 0 where
  pub content : Text
  pub content_type : Text
  pub file_name : Text

abbrev pub token_error : ℕ → Text → UploadTokenResult
token_error code error = record {
  success = false;
  error_code = code;
  error = error;
  upload_token = [];
  upload_url = [];
  expire_at = pos 0;
}

-- `back()`
unfoldable pub back : Text → ℕ
back [] = 0
back (c ∷ []) = c
back (c ∷ d ∷ cs) = back (d ∷ cs)

-- The length that is read, from an offset that is less than the size. The sum of the offset and a
-- length of the client may overflow: it is taken to wrap.
abbrev pub range_length : ℤ → ℤ → ℤ → ℤ
range_length file_size offset len =
    let read_len = if ltb_ℤ len (pos 0) then file_size -ℤ offset else len in
    if ltb_ℤ file_size (to_int64 (offset +ℤ read_len)) then file_size -ℤ offset else read_len

-- `seekg` and `read` of that many bytes.
abbrev pub read_at : Text → ℕ → ℕ → Option Text
read_at content offset len =
    let behind = drop offset content in
    if leb len (length behind) then some (take len behind) else none

abbrev pub part : FileMetaData → Text → Part
part m content = record {
  content = content;
  content_type = m.content_type;
  file_name = m.file_name;
}

module _ (D : Db) (J : Json) (F : Files) where
  unfoldable pub get_file_url : FileConfig → World D F → Text → FileUrlResult
  get_file_url config w file_id = elim (Store.get_by_id D J w.db file_id) [
    | none ↦ record {
      success = false;
      error_code = error_code_to_int file_not_found;
      error = error_code_to_string file_not_found;
      file_url = [];
      file_name = [];
      file_size = pos 0;
      content_type = [];
      expire_at = pos 0;
    }
    | some m ↦ record {
      success = true;
      error_code = 0;
      error = [];
      file_url = build_file_url config file_id;
      file_name = m.file_name;
      file_size = m.file_size;
      content_type = m.content_type;
      expire_at = pos 0;
    }
  ]

  unfoldable pub read_file : World D F → Text → Option Part
  read_file w file_id = do
    m ← Store.get_by_id D J w.db file_id
    content ← F.read w.files m.storage_path
    some (record { content = content; content_type = m.content_type; file_name = m.file_name })

  -- ReadFileRange of the file that was found, with its size.
  unfoldable pub range_found : World D F → FileMetaData → ℤ → ℤ → Option (Part × ℤ)
  range_found w m offset len =
      let from = if ltb_ℤ offset (pos 0) then pos 0 else offset in
      let bytes : Option Text = (do
        content ← F.read w.files m.storage_path
        read_at content (pos_part from) (pos_part (range_length m.file_size from len))) in
      if leb_ℤ m.file_size from
      then some (part m [], m.file_size)
      else (do b ← bytes; some (part m b, m.file_size))

  unfoldable pub read_file_range : World D F → Text → ℤ → ℤ → Option (Part × ℤ)
  read_file_range w file_id offset len = do
    m ← Store.get_by_id D J w.db file_id
    range_found w m offset len

  unfoldable pub get_file_info : World D F → Text → Option FileMetaData
  get_file_info w file_id = Store.get_by_id D J w.db file_id

  -- DeleteFile from the file that was found.
  unfoldable pub delete_found : World D F → Text → Text → Option FileMetaData → World D F × Bool
  delete_found w file_id user_id none = (w, false)
  delete_found w file_id user_id (some m) =
      let unlinked = Store.unlink D J w.db file_id in
      if not (text_eq m.uploader_id user_id)
      then (w, false)
      else if not unlinked.1
      then (record w { db = unlinked.0 }, false)
      else (record { db = unlinked.0; files = (F.remove w.files m.storage_path).0 }, true)

  unfoldable pub delete_file : World D F → Text → Text → World D F × Bool
  delete_file w file_id user_id = delete_found w file_id user_id (Store.get_by_id D J w.db file_id)

  unfoldable pub check_md5 : World D F → Text → Option Text
  check_md5 w md5 = do m ← Store.get_by_md5 D J w.db md5; some m.file_id

  -- One round of the clean-up's loop.
  unfoldable pub expire : ℤ → World D F → UploadSessionData → World D F
  expire now w session =
      let gone = F.remove w.files session.temp_path in
      let cleared : World D F × Bool =
        if F.exists w.files session.temp_path
        then (record w { files = gone.0 }, gone.1)
        else (w, true) in
      if ltb_ℤ now session.expire_at
      then w
      else if not cleared.1
      then cleared.0
      else record cleared.0 {
        db = (Store.delete_upload_session D J cleared.0.db session.upload_id).0;
      }

  unfoldable pub expire_all : ℤ → World D F → List UploadSessionData → World D F
  expire_all now w [] = w
  expire_all now w (session ∷ sessions) = expire_all now (expire now w session) sessions

  unfoldable pub cleanup_expired_sessions : World D F → ℤ → World D F
  cleanup_expired_sessions w now = expire_all now w (Store.list_all_upload_sessions D J w.db)

  unfoldable pub get_upload_token :
      FileConfig → World D F → Text → Text → ℤ → Text → ℤ → World D F × UploadTokenResult
  get_upload_token config w user_id file_name file_size bytes now =
      let init = init_upload D J F config w user_id file_name [] file_size [] [] bytes now in
      let url = build_file_url config [] in
      if leb_ℤ file_size (pos 0) || ltb_ℤ config.max_file_size file_size
      then (w, token_error (error_code_to_int file_too_large) (error_code_to_string file_too_large))
      else if not init.1.success
      then (init.0, token_error init.1.error_code init.1.error)
      else (
        init.0,
        record {
          success = true;
          error_code = 0;
          error = [];
          upload_token = init.1.upload_id;
          upload_url = (if back url == b'/' then url else url ++ codes "/") ++ codes "upload";
          expire_at = init.1.expire_at;
        },
      )
