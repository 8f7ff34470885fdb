-- ===== src/File/Uploads/Complete.antt =====
-- An upload from its start to the file that it makes.
use swift_chat_system.Common.{
  ℕ, ◌≡◌, refl, sym, ap, ◌∙◌, true, false, ◌++◌, none, some, [], arith, length,
}
use mathlib.Core.Path.{subst}
use swift_chat_system.Common.Int.{ℤ, pos, eq_ℤ, eq_ℤ_iff}
use swift_chat_system.Common.Text.{Text, codes, text_eq, text_eq_refl}
use swift_chat_system.Json.{Json}
use swift_chat_system.Json
use swift_chat_system.Storage.{Db, IsLawful}
use swift_chat_system.File.Data.{UploadSessionData, key_upload, key_file}
use swift_chat_system.File.Store.{
  save, get_by_id, get_by_md5, save_upload_session, get_upload_session, delete_upload_session,
}
use swift_chat_system.File.Disk.{Files, or_empty}
use swift_chat_system.File.Disk
use swift_chat_system.File.Lookup.{
  get_upload_session-save_upload_session, get_by_id-save, get_by_id-delete_upload_session,
}
use swift_chat_system.File.Paths.{temp_path_apart}
use swift_chat_system.File.Service.{
  FileConfig, World, InitUploadResult, UploadResult, generate_file_id, get_temp_path,
  build_storage_path,
}
use swift_chat_system.File.Service.Uploading.{
  init_new, new_session, init_upload, new_meta, publish, complete_found, complete_upload,
}
use swift_chat_system.File.Service.Download.{read_file}
use swift_chat_system.File.Uploads.{IsGood, save_upload_session-IsGood}
use swift_chat_system.File.Uploads.Progress.{
  Steps, Progress, IsUpload, Steps-IsGood, Progress-IsUpload,
}

module _ (D : Db) (J : Json) (F : Files) (config : FileConfig) (law : IsLawful D)
    (json_law : Json.IsLawful J) (disk : Disk.IsLawful F) where
  abbrev temp : Text → Text
  temp i = get_temp_path config.storage_path i

  -- The file that a complete upload makes.
  pub complete_upload-read :
      (i : Text) (x : UploadSessionData) (w v : World D F) (n : ℕ) (content bytes : Text) (now : ℤ)
      (r : UploadResult)
      → IsUpload D J F config law json_law disk i x w n content
      → complete_upload D J F config w i bytes now ≡ (v, r)
      → r.success ≡ true
      → (read_file D J F v r.file_id
          ≡ some (record {
            content = content;
            content_type = x.content_type;
            file_name = x.file_name;
          }))
        × (pos n ≡ x.file_size)
  unfolding complete_upload complete_found publish
  complete_upload-read i x w v n content bytes now r up e ok =
      let y : UploadSessionData = record x { bytes_written = pos n } in
      let file_id = generate_file_id bytes in
      let path = build_storage_path config.storage_path file_id in
      let p = x.temp_path in
      let m = new_meta D J F config y file_id now in
      let found = up.session in
      let placed : p ≡ temp i = (up.good.sessions i y found).1 in
      let made = F.make_parents w.files path in
      let mv = F.rename made.0 p path in
      let saved = save D J w.db m in
      let full : eq_ℤ (pos n) x.file_size ≡ true = ground (arith, found) in
      let moved : mv.1 ≡ true = ground (arith, found) in
      let kept : saved.1 ≡ true = ground (arith, found) in
      let named : r.file_id ≡ file_id = ground (arith, found) in
      let files : v.files ≡ mv.0 = ground (arith, found) in
      let db : v.db ≡ (delete_upload_session D J saved.0 i).0 = ground (arith, found) in
      let listed : get_by_id D J v.db file_id ≡ some m =
        ap (λ s. get_by_id D J s file_id) db
        ∙ (get_by_id-delete_upload_session D J law json_law saved.0 i file_id
            ∙ ground
                (arith, get_by_id-save D J law json_law w.db m file_id, text_eq_refl file_id)) in
      let away : text_eq p path ≡ false =
        rw placed (temp_path_apart config.storage_path i file_id) in
      let (d, at_temp, at_path) = disk.read-rename made.0 p path away moved in
      let whole : d ≡ content =
        ap or_empty
          (sym at_temp ∙ (disk.read-make_parents w.files path p ∙ ap (F.read w.files) placed))
        ∙ up.file in
      (
        unfold read_file in (rw (named, listed, files, at_path, whole) refl),
        (eq_ℤ_iff (pos n) x.file_size).0 full,
      )

  empty-IsGood :
      (e : World D F) → ((k : Text) → D.get e.db k ≡ none) → IsGood D J config.storage_path e.db
  unfolding get_upload_session get_by_id
  empty-IsGood e empty = record {
    sessions = λ i x found. absurd (ground (arith, empty (key_upload i)));
    unnamed = empty (key_upload []);
    metas = λ j m found. absurd (ground (arith, empty (key_file j)));
  }

  init_new-IsUpload :
      (w w' : World D F) (x : UploadSessionData) (r : InitUploadResult)
      → IsGood D J config.storage_path w.db
      → F.read w.files (temp x.upload_id) ≡ none
      → x.temp_path ≡ temp x.upload_id
      → x.bytes_written ≡ pos 0
      → init_new D J F config w x ≡ (w', r)
      → r.success ≡ true
      → (r.upload_id ≡ x.upload_id) × IsUpload D J F config law json_law disk x.upload_id x w' 0 []
  unfolding init_new
  init_new-IsUpload w w' x r good clear placed start e ok =
      let dir = config.storage_path ++ codes "/.tmp" in
      let made = F.make_dir w.files dir in
      let saved = save_upload_session D J w.db x in
      let kept : saved.1 ≡ true = ground arith in
      let left : record { db = saved.0; files = made.0 } ≡ w' = ground arith in
      (
        ground arith,
        subst (λ u. IsUpload D J F config law json_law disk x.upload_id x u 0 []) left
            (record {
              good =
                  save_upload_session-IsGood D J config.storage_path law json_law w.db x good
                    placed;
              session = ground (
                arith,
                get_upload_session-save_upload_session D J law json_law w.db x x.upload_id,
                text_eq_refl x.upload_id,
              );
              file = ap or_empty (disk.read-make_dir w.files dir (temp x.upload_id) ∙ clear);
            }),
      )

  -- An upload that begins after any calls counts no byte, and its temporary file is empty.
  pub init_upload-IsUpload :
      (e w w' : World D F) (user_id file_name content_type : Text) (file_size : ℤ)
      (md5 msg_id bytes : Text) (now : ℤ) (r : InitUploadResult)
      → ((k : Text) → D.get e.db k ≡ none)
      → Steps D J F config [] e w
      → get_by_md5 D J w.db md5 ≡ none
      → F.read w.files (get_temp_path config.storage_path (generate_file_id bytes)) ≡ none
      → init_upload D J F config w user_id file_name content_type file_size md5 msg_id bytes now
        ≡ (w', r)
      → r.success ≡ true
      → IsUpload D J F config law json_law disk r.upload_id
          (new_session D J F config user_id file_name content_type file_size md5 msg_id bytes now)
          w'
          0
          []
  unfolding init_upload
  init_upload-IsUpload e w w' user_id file_name content_type file_size md5 msg_id bytes now r empty
        before unknown clear begin begun_ok =
      let x =
        new_session D J F config user_id file_name content_type file_size md5 msg_id bytes now in
      let good = Steps-IsGood D J F config law json_law disk [] e w (empty-IsGood e empty) before in
      let fresh : init_new D J F config w x ≡ (w', r) = ground (arith, unknown) in
      let (named, up) = init_new-IsUpload w w' x r good clear refl refl fresh begun_ok in
      subst (λ i. IsUpload D J F config law json_law disk i x w' 0 []) (sym named) up

  -- From an empty database, after any calls, an upload of a new identifier begins; it gets parts, among
  -- any calls that are not about it and clean-ups before it expires, where every new upload draws
  -- another identifier; and CompleteUpload of it succeeds. Then the file that is answered is read
  -- with the parts one after another as its content, with the type and the name of the upload, and
  -- the parts have the length that was announced. When the upload begins, no temporary file of the
  -- identifier is there, and no file of the digest.
  pub complete_upload-read_file :
      (e w w' u v : World D F) (user_id file_name content_type : Text) (file_size : ℤ)
      (md5 msg_id bytes : Text) (now : ℤ) (content bytes' : Text) (now' : ℤ) (r : InitUploadResult)
      (r' : UploadResult)
      → ((k : Text) → D.get e.db k ≡ none)
      → Steps D J F config [] e w
      → get_by_md5 D J w.db md5 ≡ none
      → F.read w.files (get_temp_path config.storage_path (generate_file_id bytes)) ≡ none
      → init_upload D J F config w user_id file_name content_type file_size md5 msg_id bytes now
        ≡ (w', r)
      → r.success ≡ true
      → Progress D J F config r.upload_id w' u content
      → complete_upload D J F config u r.upload_id bytes' now' ≡ (v, r')
      → r'.success ≡ true
      → (read_file D J F v r'.file_id
          ≡ some (record { content = content; content_type = content_type; file_name = file_name }))
        × (pos (length content) ≡ file_size)
  complete_upload-read_file e w w' u v user_id file_name content_type file_size md5 msg_id bytes now
        content bytes' now' r r' empty before unknown clear begin begun_ok progress finish ok =
      let x =
        new_session D J F config user_id file_name content_type file_size md5 msg_id bytes now in
      let up =
        init_upload-IsUpload e w w' user_id file_name content_type file_size md5 msg_id bytes now r
          empty before unknown clear begin begun_ok in
      complete_upload-read r.upload_id x u v (length content) content bytes' now' r'
        (Progress-IsUpload D J F config law json_law disk r.upload_id x w' u content up progress)
        finish ok
