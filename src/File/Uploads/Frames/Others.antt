-- ===== src/File/Uploads/Frames/Others.antt =====
-- The calls that begin, complete and delete leave another upload as it is.
use swift_chat_system.Common.{◌≡◌, refl, ◌∙◌, false, ◌++◌, some, arith, Option-cases, inl, inr}
use swift_chat_system.Common.Int.{ℤ}
use swift_chat_system.Common.Text.{Text, codes, text_eq}
use swift_chat_system.Json.{Json}
use swift_chat_system.Json
use swift_chat_system.Storage.{Db, IsLawful}
use swift_chat_system.Storage.Batch.{Keeps, keep_guard}
use swift_chat_system.File.Data.{FileMetaData, UploadSessionData}
use swift_chat_system.File.Store.{
  save, get_by_id, get_by_md5, unlink, save_upload_session, get_upload_session,
  delete_upload_session,
}
use swift_chat_system.File.Disk.{Files}
use swift_chat_system.File.Disk
use swift_chat_system.File.Lookup.{
  get_upload_session-save_upload_session, get_upload_session-delete_upload_session,
  get_upload_session-save, get-unlink,
}
use swift_chat_system.File.Paths.{text_eq-get_temp_path, storage_path_apart}
use swift_chat_system.File.Service.{
  FileConfig, World, generate_file_id, get_temp_path, build_storage_path,
}
use swift_chat_system.File.Service.Uploading.{
  init_new, new_session, init_upload, new_meta, publish, complete_found, complete_upload,
  upload_meta, upload,
}
use swift_chat_system.File.Service.Download.{delete_found, delete_file}
use swift_chat_system.File.Uploads.{
  IsGood, save_upload_session-IsGood, delete_upload_session-IsGood, save-IsGood, unlink-IsGood,
}
use swift_chat_system.File.Uploads.Frames.{Fine, Fine-refl, Fine-files}

module _ (D : Db) (J : Json) (F : Files) (config : FileConfig) (law : IsLawful D)
    (json_law : Json.IsLawful J) (disk : Disk.IsLawful F) where
  abbrev temp : Text → Text
  temp i = get_temp_path config.storage_path i

  module _ (w : World D F) (i : Text) (good : IsGood D J config.storage_path w.db) where
    -- The upload in the worlds that the calls go through.
    abbrev IsFine : World D F → Type 0
    IsFine v = Fine D J F config law json_law disk w i v

    still : IsFine w
    still = Fine-refl D J F config law json_law disk w i good

    on_disk :
        (fs : F.State)
        → F.read fs (temp i) ≡ F.read w.files (temp i)
        → IsFine (record w { files = fs })
    on_disk fs same = Fine-files D J F config law json_law disk w i good fs same

    publish-Fine :
        (v : World D F) (j file_id : Text) (x : UploadSessionData) (now : ℤ)
        → text_eq j i ≡ false
        → IsFine v
        → Keeps IsFine (publish D J F config v j x file_id now)
    unfolding publish
    publish-Fine v j file_id x now apart fine =
        let m = new_meta D J F config x file_id now in
        let path = build_storage_path config.storage_path file_id in
        let saved = save D J v.db m in
        let good' = save-IsGood D J config.storage_path law json_law v.db m fine.good refl in
        let same = get_upload_session-save D J law json_law v.db m i ∙ fine.session in
        let failed : IsFine (record { db = saved.0; files = (F.remove v.files path).0 }) = record {
          good = good';
          session = same;
          file =
              disk.remove_elsewhere v.files path (temp i)
                (storage_path_apart config.storage_path i file_id)
              ∙ fine.file;
        } in
        let done : IsFine (record v { db = (delete_upload_session D J saved.0 j).0 }) = record {
          good = delete_upload_session-IsGood D J config.storage_path law json_law saved.0 j good';
          session =
              ground (
                arith,
                get_upload_session-delete_upload_session D J law json_law saved.0 j i,
                same,
              );
          file = fine.file;
        } in
        keep_guard _ _ _ _ failed (record { state = done })

    complete_found-Fine :
        (j file_id : Text) (x : UploadSessionData) (now : ℤ)
        → text_eq j i ≡ false
        → get_upload_session D J w.db j ≡ some x
        → Keeps IsFine (complete_found D J F config w j file_id now (some x))
    unfolding complete_found
    complete_found-Fine j file_id x now apart found =
        let p = x.temp_path in
        let path = build_storage_path config.storage_path file_id in
        let (keyed, placed) = good.sessions j x found in
        let away : text_eq p (temp i) ≡ false =
          rw placed (text_eq-get_temp_path config.storage_path j i ∙ apart) in
        let made = F.make_parents w.files path in
        let moved = F.rename made.0 p path in
        let e = disk.read-make_parents w.files path (temp i) in
        let e' =
          disk.rename_elsewhere made.0 p path (temp i) away
            (storage_path_apart config.storage_path i file_id)
          ∙ e in
        keep_guard _ _ _ _ still (
          keep_guard _ _ _ _ (on_disk _ e) (
            keep_guard _ _ _ _ (on_disk _ e')
              (publish-Fine (record w { files = moved.0 }) j file_id x now apart (on_disk _ e'))))

    pub complete_upload-Fine :
        (j bytes : Text) (now : ℤ)
        → text_eq j i ≡ false
        → Keeps IsFine (complete_upload D J F config w j bytes now)
    unfolding complete_upload
    complete_upload-Fine j bytes now apart = elim (Option-cases (get_upload_session D J w.db j)) [
      | inl missing ↦ rw missing (unfold complete_found in record { state = still })
      | inr (x, found) ↦ rw found (complete_found-Fine j (generate_file_id bytes) x now apart found)
    ]

    init_new-Fine :
        (x : UploadSessionData)
        → x.temp_path ≡ temp x.upload_id
        → text_eq x.upload_id i ≡ false
        → Keeps IsFine (init_new D J F config w x)
    unfolding init_new
    init_new-Fine x placed apart =
        let dir = config.storage_path ++ codes "/.tmp" in
        let made = F.make_dir w.files dir in
        let e = disk.read-make_dir w.files dir (temp i) in
        let saved = save_upload_session D J w.db x in
        let done : IsFine (record { db = saved.0; files = made.0 }) = record {
          good = save_upload_session-IsGood D J config.storage_path law json_law w.db x good placed;
          session =
              ground (arith, get_upload_session-save_upload_session D J law json_law w.db x i);
          file = e;
        } in
        keep_guard _ _ _ _ (on_disk _ e) (keep_guard _ _ _ _ done (record { state = done }))

    pub init_upload-Fine :
        (user_id file_name content_type : Text) (file_size : ℤ) (md5 msg_id bytes : Text) (now : ℤ)
        → text_eq (generate_file_id bytes) i ≡ false
        → Keeps IsFine (
            init_upload D J F config w user_id file_name content_type file_size md5 msg_id bytes
              now)
    unfolding init_upload
    init_upload-Fine user_id file_name content_type file_size md5 msg_id bytes now apart =
        let x =
          new_session D J F config user_id file_name content_type file_size md5 msg_id bytes now in
        elim (Option-cases (get_by_md5 D J w.db md5)) [
          | inl none_yet ↦ rw none_yet (keep_guard _ _ _ _ still (init_new-Fine x refl apart))
          | inr (m, there) ↦ rw there (keep_guard _ _ _ _ still (record { state = still }))
        ]

    pub upload-Fine :
        (user_id file_name content_type content bytes : Text) (now : ℤ)
        → Keeps IsFine (upload D J F config w user_id file_name content_type content bytes now)
    unfolding upload
    upload-Fine user_id file_name content_type content bytes now =
        let file_id = generate_file_id bytes in
        let path = build_storage_path config.storage_path file_id in
        let away = storage_path_apart config.storage_path i file_id in
        let m = upload_meta D J F config user_id file_name content_type content file_id now in
        let made = F.make_parents w.files path in
        let o = F.open_new made.0 path in
        let wr = F.write o.0 path content in
        let e = disk.read-make_parents w.files path (temp i) in
        let e' = disk.open_new_elsewhere made.0 path (temp i) away ∙ e in
        let e'' = disk.write_elsewhere o.0 path content (temp i) away ∙ e' in
        let gone = disk.remove_elsewhere wr.0 path (temp i) away ∙ e'' in
        let saved = save D J w.db m in
        let at : (fs : F.State)
            → F.read fs (temp i) ≡ F.read w.files (temp i)
            → IsFine (record { db = saved.0; files = fs }) =
          λ fs same. record {
            good = save-IsGood D J config.storage_path law json_law w.db m good refl;
            session = get_upload_session-save D J law json_law w.db m i;
            file = same;
          } in
        keep_guard _ _ _ _ still (
          keep_guard _ _ _ _ (on_disk _ e) (
            keep_guard _ _ _ _ (on_disk _ e') (
              keep_guard _ _ _ _ (on_disk _ gone) (
                keep_guard _ _ _ _ (at _ gone)
                  (record { state = at _ (disk.flush_elsewhere wr.0 path (temp i) away ∙ e'') })))))

    delete_found-Fine :
        (file_id user_id : Text) (m : FileMetaData)
        → get_by_id D J w.db file_id ≡ some m
        → Keeps IsFine (delete_found D J F w file_id user_id (some m))
    unfolding delete_found
    delete_found-Fine file_id user_id m found =
        let away : text_eq m.storage_path (temp i) ≡ false =
          rw (good.metas file_id m found) (storage_path_apart config.storage_path i file_id) in
        let unlinked = unlink D J w.db file_id in
        let at : (fs : F.State)
            → F.read fs (temp i) ≡ F.read w.files (temp i)
            → IsFine (record { db = unlinked.0; files = fs }) =
          λ fs same. record {
            good = unlink-IsGood D J config.storage_path law json_law w.db file_id good;
            session = (get-unlink D J law json_law w.db file_id i).0;
            file = same;
          } in
        keep_guard _ _ _ _ still (
          keep_guard _ _ _ _ (at _ refl)
            (record { state = at _ (disk.remove_elsewhere w.files m.storage_path (temp i) away) }))

    pub delete_file-Fine :
        (file_id user_id : Text) → Keeps IsFine (delete_file D J F w file_id user_id)
    unfolding delete_file
    delete_file-Fine file_id user_id = elim (Option-cases (get_by_id D J w.db file_id)) [
      | inl missing ↦ rw missing (unfold delete_found in record { state = still })
      | inr (m, found) ↦ rw found (delete_found-Fine file_id user_id m found)
    ]
