-- ===== src/File/Data.antt =====
-- FileMetaData and UploadSessionData of filesvr/internal/store/file_store.h, their JSON texts and
-- the keys of file_store.cpp.
use swift_chat_system.Common.{◌≡◌, Option, some, [], ◌∷◌, ◌++◌, ◌>>=◌}
use swift_chat_system.Common.Int.{ℤ, pos}
use swift_chat_system.Common.Text.{Text, codes, text_eq}
use swift_chat_system.Common.Text.Fields.{text_eq-append_left}
use swift_chat_system.Json.{Json, IsLawful, Object, find, str, int, text_value, int64_value}

pub record FileMetaData : Type 0 where
  pub file_id : Text
  pub file_name : Text
  pub content_type : Text
  pub file_size : ℤ
  pub md5 : Text
  pub uploader_id : Text
  pub storage_path : Text
  pub uploaded_at : ℤ

pub record UploadSessionData : Type 0 where
  pub upload_id : Text
  pub user_id : Text
  pub file_name : Text
  pub content_type : Text
  pub file_size : ℤ
  pub md5 : Text
  pub msg_id : Text
  pub temp_path : Text
  pub bytes_written : ℤ
  pub expire_at : ℤ

abbrev pub meta_object : FileMetaData → Object
meta_object m =
    (codes "file_id", str m.file_id)
    ∷ (codes "file_name", str m.file_name)
    ∷ (codes "content_type", str m.content_type)
    ∷ (codes "file_size", int m.file_size)
    ∷ (codes "md5", str m.md5)
    ∷ (codes "uploader_id", str m.uploader_id)
    ∷ (codes "storage_path", str m.storage_path)
    ∷ (codes "uploaded_at", int m.uploaded_at)
    ∷ []

abbrev pub read_meta : Object → Option FileMetaData
read_meta j = do
  file_id ← text_value j (codes "file_id") []
  file_name ← text_value j (codes "file_name") []
  content_type ← text_value j (codes "content_type") []
  file_size ← int64_value j (codes "file_size") (pos 0)
  md5 ← text_value j (codes "md5") []
  uploader_id ← text_value j (codes "uploader_id") []
  storage_path ← text_value j (codes "storage_path") []
  uploaded_at ← int64_value j (codes "uploaded_at") (pos 0)
  some (record {
    file_id = file_id;
    file_name = file_name;
    content_type = content_type;
    file_size = file_size;
    md5 = md5;
    uploader_id = uploader_id;
    storage_path = storage_path;
    uploaded_at = uploaded_at;
  })

abbrev pub upload_object : UploadSessionData → Object
upload_object s =
    (codes "upload_id", str s.upload_id)
    ∷ (codes "user_id", str s.user_id)
    ∷ (codes "file_name", str s.file_name)
    ∷ (codes "content_type", str s.content_type)
    ∷ (codes "file_size", int s.file_size)
    ∷ (codes "md5", str s.md5)
    ∷ (codes "msg_id", str s.msg_id)
    ∷ (codes "temp_path", str s.temp_path)
    ∷ (codes "bytes_written", int s.bytes_written)
    ∷ (codes "expire_at", int s.expire_at)
    ∷ []

abbrev pub read_upload : Object → Option UploadSessionData
read_upload j = do
  upload_id ← text_value j (codes "upload_id") []
  user_id ← text_value j (codes "user_id") []
  file_name ← text_value j (codes "file_name") []
  content_type ← text_value j (codes "content_type") []
  file_size ← int64_value j (codes "file_size") (pos 0)
  md5 ← text_value j (codes "md5") []
  msg_id ← text_value j (codes "msg_id") []
  temp_path ← text_value j (codes "temp_path") []
  bytes_written ← int64_value j (codes "bytes_written") (pos 0)
  expire_at ← int64_value j (codes "expire_at") (pos 0)
  some (record {
    upload_id = upload_id;
    user_id = user_id;
    file_name = file_name;
    content_type = content_type;
    file_size = file_size;
    md5 = md5;
    msg_id = msg_id;
    temp_path = temp_path;
    bytes_written = bytes_written;
    expire_at = expire_at;
  })

unfoldable pub key_file : Text → Text
key_file file_id = codes "file:" ++ file_id

unfoldable pub key_md5 : Text → Text
key_md5 md5 = codes "file_md5:" ++ md5

unfoldable pub key_upload : Text → Text
key_upload upload_id = codes "upload:" ++ upload_id

pub text_eq-key_file : (i j : Text) → text_eq (key_file i) (key_file j) ≡ text_eq i j
unfolding key_file
text_eq-key_file i j = text_eq-append_left (codes "file:") i j

pub text_eq-key_upload : (i j : Text) → text_eq (key_upload i) (key_upload j) ≡ text_eq i j
unfolding key_upload
text_eq-key_upload i j = text_eq-append_left (codes "upload:") i j

module _ (J : Json) where
  unfoldable pub serialize_meta : FileMetaData → Text
  serialize_meta m = J.dump (meta_object m)

  unfoldable pub deserialize_meta : Text → Option FileMetaData
  deserialize_meta text = do j ← J.parse text; read_meta j

  unfoldable pub serialize_upload : UploadSessionData → Text
  serialize_upload s = J.dump (upload_object s)

  unfoldable pub deserialize_upload : Text → Option UploadSessionData
  deserialize_upload text = do j ← J.parse text; read_upload j

  pub deserialize-serialize_meta :
      (law : IsLawful J) (m : FileMetaData) → deserialize_meta (serialize_meta m) ≡ some m
  unfolding deserialize_meta serialize_meta find text_eq
  deserialize-serialize_meta law m =
      let (j, parsed, same) = law.parse-dump (meta_object m) in rw parsed (simp same)

  pub deserialize-serialize_upload :
      (law : IsLawful J) (s : UploadSessionData) → deserialize_upload (serialize_upload s) ≡ some s
  unfolding deserialize_upload serialize_upload find text_eq
  deserialize-serialize_upload law s =
      let (j, parsed, same) = law.parse-dump (upload_object s) in rw parsed (simp same)
