-- ===== src/File/Uploads.antt =====
-- Uploads of several clients at once: what a call at one upload leaves of another.
pub mod Frames
pub mod Cleanup
pub mod Progress
pub mod Complete
pub mod Uncounted
use swift_chat_system.Common.{
  ◌≡◌, refl, true, false, ◌&&◌, ◌++◌, Option, none, some, [], ◌∷◌, arith, if◌then◌else◌, Bool-cases,
  Option-cases, inl, inr,
}
use swift_chat_system.Common.Int.{ℤ}
use swift_chat_system.Common.Text.{Text, text_eq, is_empty, text_eq_iff}
use swift_chat_system.Json.{Json}
use swift_chat_system.Json
use swift_chat_system.Storage.{Db, IsLawful}
use swift_chat_system.File.Data.{FileMetaData, UploadSessionData, key_upload}
use swift_chat_system.File.Store.{
  save, get_by_id, unlink, save_upload_session, get_upload_session, bytes_found,
  update_upload_session_bytes, delete_upload_session,
}
use swift_chat_system.File.Lookup.{
  unnamed-save_upload_session, unnamed-delete_upload_session, unnamed-save, unnamed-unlink,
  get_upload_session-save_upload_session, get_by_id-save_upload_session,
  get_upload_session-delete_upload_session, get_by_id-delete_upload_session,
  get_upload_session-save, get_by_id-save, get-unlink,
}
use swift_chat_system.File.Service.{get_temp_path, build_storage_path}

module _ (D : Db) (J : Json) (root : Text) where
  -- Every session and every file is stored under its own identifier and has the path of it.
  pub record IsGood (s : D.State) : Type 0 where
    pub sessions :
        (i : Text) (x : UploadSessionData)
        → get_upload_session D J s i ≡ some x
        → (x.upload_id ≡ i) × (x.temp_path ≡ get_temp_path root i)
    pub unnamed : D.get s (key_upload []) ≡ none
    pub metas :
        (j : Text) (m : FileMetaData)
        → get_by_id D J s j ≡ some m
        → m.storage_path ≡ build_storage_path root j

module _ (D : Db) (J : Json) (root : Text) (law : IsLawful D) (json_law : Json.IsLawful J) where
  pub save_upload_session-IsGood :
      (s : D.State) (x : UploadSessionData)
      → IsGood D J root s
      → x.temp_path ≡ get_temp_path root x.upload_id
      → IsGood D J root (save_upload_session D J s x).0
  save_upload_session-IsGood s x good placed = record {
    sessions = λ i y found.
        elim (Bool-cases ((save_upload_session D J s x).1 && text_eq x.upload_id i)) [
          | inl own ↦ ground (
            arith,
            get_upload_session-save_upload_session D J law json_law s x i,
            text_eq_iff x.upload_id i,
          )
          | inr other ↦
              good.sessions i y
                (ground (arith, get_upload_session-save_upload_session D J law json_law s x i))
        ];
    unnamed = unnamed-save_upload_session D J law json_law s x good.unnamed;
    metas = λ j m found.
        good.metas j m (ground (arith, get_by_id-save_upload_session D J law json_law s x j));
  }

  pub delete_upload_session-IsGood :
      (s : D.State) (i : Text)
      → IsGood D J root s
      → IsGood D J root (delete_upload_session D J s i).0
  delete_upload_session-IsGood s i good = record {
    sessions = λ j x found.
        good.sessions j x
          (ground (arith, get_upload_session-delete_upload_session D J law json_law s i j));
    unnamed = unnamed-delete_upload_session D J law json_law s i good.unnamed;
    metas = λ j m found.
        good.metas j m (ground (arith, get_by_id-delete_upload_session D J law json_law s i j));
  }

  pub save-IsGood :
      (s : D.State) (m : FileMetaData)
      → IsGood D J root s
      → m.storage_path ≡ build_storage_path root m.file_id
      → IsGood D J root (save D J s m).0
  save-IsGood s m good placed = record {
    sessions = λ i x found.
        good.sessions i x (ground (arith, get_upload_session-save D J law json_law s m i));
    unnamed = unnamed-save D J law json_law s m good.unnamed;
    metas = λ j n found. elim (Bool-cases ((save D J s m).1 && text_eq m.file_id j)) [
      | inl own ↦ ground (arith, get_by_id-save D J law json_law s m j, text_eq_iff m.file_id j)
      | inr other ↦ good.metas j n (ground (arith, get_by_id-save D J law json_law s m j))
    ];
  }

  pub unlink-IsGood :
      (s : D.State) (i : Text) → IsGood D J root s → IsGood D J root (unlink D J s i).0
  unlink-IsGood s i good = record {
    sessions = λ j x found. good.sessions j x (ground (arith, get-unlink D J law json_law s i j));
    unnamed = unnamed-unlink D J law json_law s i good.unnamed;
    metas = λ j m found. good.metas j m (ground (arith, get-unlink D J law json_law s i j));
  }
