-- ===== src/File/Lookup.antt =====
-- What the file store has of the uploads and of the files after each of its operations.
use swift_chat_system.Common.{
  ◌≡◌, refl, false, ◌&&◌, none, some, [], ◌∷◌, arith, if◌then◌else◌, Option-cases, inl, inr,
}
use swift_chat_system.Common.Text.{Text, text_eq, text_eq_iff}
use swift_chat_system.Json.{Json}
use swift_chat_system.Json
use swift_chat_system.Storage.{Db, IsLawful, put, delete, after, get-commit}
use swift_chat_system.File.Data.{
  FileMetaData, UploadSessionData, key_file, key_md5, key_upload, text_eq-key_file,
  text_eq-key_upload, serialize_upload, deserialize-serialize_meta, deserialize-serialize_upload,
}
use swift_chat_system.File.Store.{
  meta_batch, unlink_batch, save, get_by_id, unlink, unlink_found, save_upload_session,
  get_upload_session, delete_upload_session,
}

apart :
    (i j : Text)
    → (text_eq (key_upload i) (key_file j) ≡ false)
      × (text_eq (key_file i) (key_upload j) ≡ false)
      × (text_eq (key_md5 i) (key_upload j) ≡ false)
      × (text_eq (key_md5 i) (key_file j) ≡ false)
unfolding key_upload key_file key_md5 text_eq
apart i j = (refl, refl, refl, refl)

module _ (D : Db) (J : Json) (law : IsLawful D) (json_law : Json.IsLawful J) where
  pub get_upload_session-save_upload_session :
      (s : D.State) (x : UploadSessionData) (j : Text)
      → get_upload_session D J (save_upload_session D J s x).0 j ≡ (
          if (save_upload_session D J s x).1 && text_eq x.upload_id j
          then some x
          else get_upload_session D J s j)
  unfolding save_upload_session get_upload_session after
  get_upload_session-save_upload_session s x j = ground (
    arith,
    get-commit D law s (put (key_upload x.upload_id) (serialize_upload J x) ∷ []) (key_upload j),
    text_eq-key_upload x.upload_id j,
    text_eq_iff x.upload_id j,
    deserialize-serialize_upload J json_law x,
  )

  pub get_by_id-save_upload_session :
      (s : D.State) (x : UploadSessionData) (j : Text)
      → get_by_id D J (save_upload_session D J s x).0 j ≡ get_by_id D J s j
  unfolding save_upload_session get_by_id after
  get_by_id-save_upload_session s x j = ground (
    arith,
    get-commit D law s (put (key_upload x.upload_id) (serialize_upload J x) ∷ []) (key_file j),
    (apart x.upload_id j).0,
  )

  pub get_upload_session-delete_upload_session :
      (s : D.State) (i j : Text)
      → get_upload_session D J (delete_upload_session D J s i).0 j ≡ (
          if (delete_upload_session D J s i).1 && text_eq i j
          then none
          else get_upload_session D J s j)
  unfolding delete_upload_session get_upload_session after
  get_upload_session-delete_upload_session s i j = ground (
    arith,
    get-commit D law s (delete (key_upload i) ∷ []) (key_upload j),
    text_eq-key_upload i j,
    text_eq_iff i j,
  )

  pub get_by_id-delete_upload_session :
      (s : D.State) (i j : Text)
      → get_by_id D J (delete_upload_session D J s i).0 j ≡ get_by_id D J s j
  unfolding delete_upload_session get_by_id after
  get_by_id-delete_upload_session s i j =
      ground (arith, get-commit D law s (delete (key_upload i) ∷ []) (key_file j), (apart i j).0)

  pub get_upload_session-save :
      (s : D.State) (m : FileMetaData) (j : Text)
      → get_upload_session D J (save D J s m).0 j ≡ get_upload_session D J s j
  unfolding save get_upload_session after
  get_upload_session-save s m j = ground (
    arith,
    get-commit D law s (meta_batch D J m) (key_upload j),
    (apart m.file_id j).1,
    (apart m.md5 j).2,
  )

  pub get_by_id-save :
      (s : D.State) (m : FileMetaData) (j : Text)
      → get_by_id D J (save D J s m).0 j
        ≡ (if (save D J s m).1 && text_eq m.file_id j then some m else get_by_id D J s j)
  unfolding save get_by_id after
  get_by_id-save s m j = ground (
    arith,
    get-commit D law s (meta_batch D J m) (key_file j),
    text_eq-key_file m.file_id j,
    text_eq_iff m.file_id j,
    (apart m.md5 j).3,
    deserialize-serialize_meta J json_law m,
  )

  unlinked :
      (s : D.State) (m : FileMetaData) (i j : Text)
      → (get_upload_session D J (unlink_found D J s i (some m)).0 j ≡ get_upload_session D J s j)
        × (get_by_id D J (unlink_found D J s i (some m)).0 j ≡ (
            if (unlink_found D J s i (some m)).1 && text_eq i j then none else get_by_id D J s j))
  unfolding unlink_found get_upload_session get_by_id after
  unlinked s m i j = (
    ground (
      arith,
      get-commit D law s (unlink_batch D J m i) (key_upload j),
      (apart i j).1,
      (apart m.md5 j).2,
    ),
    ground (
      arith,
      get-commit D law s (unlink_batch D J m i) (key_file j),
      text_eq-key_file i j,
      text_eq_iff i j,
      (apart m.md5 j).3,
    ),
  )

  pub get-unlink :
      (s : D.State) (i j : Text)
      → (get_upload_session D J (unlink D J s i).0 j ≡ get_upload_session D J s j)
        × (get_by_id D J (unlink D J s i).0 j
            ≡ (if (unlink D J s i).1 && text_eq i j then none else get_by_id D J s j))
  unfolding unlink
  get-unlink s i j = elim (Option-cases (get_by_id D J s i)) [
    | inl missing ↦ (unfold unlink_found in ground arith, unfold unlink_found in ground arith)
    | inr (m, found) ↦ (ground (arith, unlinked s m i j), ground (arith, unlinked s m i j))
  ]

  -- No session comes under the name that is empty.
  pub unnamed-save_upload_session :
      (s : D.State) (x : UploadSessionData)
      → D.get s (key_upload []) ≡ none
      → D.get (save_upload_session D J s x).0 (key_upload []) ≡ none
  unfolding save_upload_session after text_eq
  unnamed-save_upload_session s x h = ground (
    arith,
    get-commit D law s (put (key_upload x.upload_id) (serialize_upload J x) ∷ []) (key_upload []),
    text_eq-key_upload x.upload_id [],
    text_eq_iff x.upload_id [],
  )

  pub unnamed-delete_upload_session :
      (s : D.State) (i : Text)
      → D.get s (key_upload []) ≡ none
      → D.get (delete_upload_session D J s i).0 (key_upload []) ≡ none
  unfolding delete_upload_session after
  unnamed-delete_upload_session s i h =
      ground (arith, get-commit D law s (delete (key_upload i) ∷ []) (key_upload []))

  pub unnamed-save :
      (s : D.State) (m : FileMetaData)
      → D.get s (key_upload []) ≡ none
      → D.get (save D J s m).0 (key_upload []) ≡ none
  unfolding save after
  unnamed-save s m h = ground (
    arith,
    get-commit D law s (meta_batch D J m) (key_upload []),
    (apart m.file_id []).1,
    (apart m.md5 []).2,
  )

  unnamed-unlink_found :
      (s : D.State) (m : FileMetaData) (i : Text)
      → D.get s (key_upload []) ≡ none
      → D.get (unlink_found D J s i (some m)).0 (key_upload []) ≡ none
  unfolding unlink_found after
  unnamed-unlink_found s m i h = ground (
    arith,
    get-commit D law s (unlink_batch D J m i) (key_upload []),
    (apart i []).1,
    (apart m.md5 []).2,
  )

  pub unnamed-unlink :
      (s : D.State) (i : Text)
      → D.get s (key_upload []) ≡ none
      → D.get (unlink D J s i).0 (key_upload []) ≡ none
  unfolding unlink
  unnamed-unlink s i h = elim (Option-cases (get_by_id D J s i)) [
    | inl missing ↦ unfold unlink_found in ground arith
    | inr (m, there) ↦ ground (arith, unnamed-unlink_found s m i h)
  ]
