-- ===== src/File/Uploads/Frames.antt =====
-- The calls at other uploads leave a session and its temporary file as they are.
pub mod Others
use swift_chat_system.Common.{
  ◌≡◌, refl, ◌∙◌, true, false, ◌++◌, some, arith, length, Option-cases, inl, inr,
}
use swift_chat_system.Common.Int.{ℤ, pos, ◌+ℤ◌}
use swift_chat_system.Common.Text.{Text, codes, text_eq, text_eq_iff}
use swift_chat_system.Json.{Json}
use swift_chat_system.Json
use swift_chat_system.Storage.{Db, IsLawful}
use swift_chat_system.Storage.Batch.{Keeps, keep_guard}
use swift_chat_system.File.Data.{FileMetaData, UploadSessionData}
use swift_chat_system.File.Store.{
  save, get_by_id, get_by_md5, unlink, save_upload_session, get_upload_session, bytes_found,
  update_upload_session_bytes, delete_upload_session,
}
use swift_chat_system.File.Disk.{Files}
use swift_chat_system.File.Disk
use swift_chat_system.File.Lookup.{
  get_upload_session-save_upload_session, get_upload_session-delete_upload_session,
  get_upload_session-save, get-unlink,
}
use swift_chat_system.File.Paths.{text_eq-get_temp_path, storage_path_apart}
use swift_chat_system.File.Service.{
  FileConfig, World, generate_file_id, get_temp_path, build_storage_path,
}
use swift_chat_system.File.Service.Uploading.{
  init_new, new_session, init_upload, append_found, append_chunk, new_meta, publish, complete_found,
  complete_upload, upload_meta, upload,
}
use swift_chat_system.File.Service.Download.{delete_found, delete_file}
use swift_chat_system.File.Uploads.{
  IsGood, save_upload_session-IsGood, delete_upload_session-IsGood, save-IsGood, unlink-IsGood,
}

module _ (D : Db) (J : Json) (F : Files) (config : FileConfig) (law : IsLawful D)
    (json_law : Json.IsLawful J) (disk : Disk.IsLawful F) where
  abbrev temp : Text → Text
  temp i = get_temp_path config.storage_path i

  -- The database stays good, and the upload `i` as it was.
  pub record Fine (w : World D F) (i : Text) (v : World D F) : Type 0 where
    pub good : IsGood D J config.storage_path v.db
    pub session : get_upload_session D J v.db i ≡ get_upload_session D J w.db i
    pub file : F.read v.files (temp i) ≡ F.read w.files (temp i)

  -- The count of bytes is written to the session of the upload.
  pub record IsCounted (s : D.State) (j : Text) (x : UploadSessionData) (n : ℤ) : Type 0 where
    pub good : IsGood D J config.storage_path (update_upload_session_bytes D J s j n).0
    pub own :
        (update_upload_session_bytes D J s j n).1 ≡ true
        → get_upload_session D J (update_upload_session_bytes D J s j n).0 j
          ≡ some (record x { bytes_written = n })
    pub other :
        (i : Text)
        → text_eq j i ≡ false
        → get_upload_session D J (update_upload_session_bytes D J s j n).0 i
          ≡ get_upload_session D J s i

  update-save :
      (s : D.State) (j : Text) (x : UploadSessionData) (n : ℤ)
      → get_upload_session D J s j ≡ some x
      → update_upload_session_bytes D J s j n
        ≡ save_upload_session D J s (record x { bytes_written = n })
  unfolding update_upload_session_bytes bytes_found get_upload_session
  update-save s j x n found = ground arith

  pub update-IsCounted :
      (s : D.State) (j : Text) (x : UploadSessionData) (n : ℤ)
      → IsGood D J config.storage_path s
      → get_upload_session D J s j ≡ some x
      → IsCounted s j x n
  update-IsCounted s j x n good found =
      let y : UploadSessionData = record x { bytes_written = n } in
      let (keyed, placed) = good.sessions j x found in
      let saved = update-save s j x n found in
      let got = get_upload_session-save_upload_session D J law json_law s y in
      record {
        good = rw saved (
            save_upload_session-IsGood D J config.storage_path law json_law s y good
              (ground arith));
        own = λ ok. ground (arith, saved, got j, text_eq_iff x.upload_id j);
        other = λ i apart. ground (arith, saved, got i, keyed);
      }

  module _ (w : World D F) (i : Text) (good : IsGood D J config.storage_path w.db) where
    pub Fine-refl : Fine w i w
    Fine-refl = record { good = good; session = refl; file = refl }

    -- A call that only changes the disk, at other paths.
    pub Fine-files :
        (fs : F.State)
        → F.read fs (temp i) ≡ F.read w.files (temp i)
        → Fine w i (record w { files = fs })
    Fine-files fs same = record { good = good; session = refl; file = same }

    append_found-Fine :
        (j content : Text) (x : UploadSessionData)
        → text_eq j i ≡ false
        → get_upload_session D J w.db j ≡ some x
        → Keeps (Fine w i) (append_found D J F config w j content (some x))
    unfolding append_found
    append_found-Fine j content x apart found =
        let p = x.temp_path in
        let (keyed, placed) = good.sessions j x found in
        let away : text_eq p (temp i) ≡ false =
          rw placed (text_eq-get_temp_path config.storage_path j i ∙ apart) in
        let o = F.open_append (F.make_parents w.files p).0 p in
        let wr = F.write o.0 p content in
        let e =
          disk.open_append_elsewhere (F.make_parents w.files p).0 p (temp i) away
          ∙ disk.read-make_parents w.files p (temp i) in
        let e' = disk.write_elsewhere o.0 p content (temp i) away ∙ e in
        let e'' = disk.flush_elsewhere wr.0 p (temp i) away ∙ e' in
        let counted =
          update-IsCounted w.db j x (x.bytes_written +ℤ pos (length content)) good found in
        let done : Fine w i (record {
          db = (update_upload_session_bytes D J w.db j (x.bytes_written +ℤ pos (length content))).0;
          files = (F.flush wr.0 p).0;
        }) =
          record { good = counted.good; session = counted.other i apart; file = e'' } in
        keep_guard _ _ _ _ Fine-refl (
          keep_guard _ _ _ _ (Fine-files _ e) (
            keep_guard _ _ _ _ (Fine-files _ e') (
              keep_guard _ _ _ _ (Fine-files _ e'')
                (keep_guard _ _ _ _ done (record { state = done })))))

    pub append_chunk-Fine :
        (j content : Text)
        → text_eq j i ≡ false
        → Keeps (Fine w i) (append_chunk D J F config w j content)
    unfolding append_chunk
    append_chunk-Fine j content apart = elim (Option-cases (get_upload_session D J w.db j)) [
      | inl missing ↦ rw missing (unfold append_found in record { state = Fine-refl })
      | inr (x, found) ↦ rw found (append_found-Fine j content x apart found)
    ]
