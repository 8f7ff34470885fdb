-- ===== src/File/Uploads/Progress.antt =====
-- An upload that gets its parts among the calls of other clients.
use swift_chat_system.Common.{
  ℕ, ◌+◌, ◌≡◌, sym, ap, ◌∙◌, true, false, ◌++◌, some, [], arith, length, length-append,
}
use mathlib.Core.Path.{subst}
use swift_chat_system.Common.Int.{ℤ, pos, ◌+ℤ◌, ltb_ℤ}
use swift_chat_system.Common.Text.{Text, text_eq}
use swift_chat_system.Json.{Json}
use swift_chat_system.Json
use swift_chat_system.Storage.{Db, IsLawful}
use swift_chat_system.File.Data.{UploadSessionData}
use swift_chat_system.File.Store.{get_upload_session, update_upload_session_bytes}
use swift_chat_system.File.Disk.{Files, or_empty}
use swift_chat_system.File.Disk
use swift_chat_system.File.Service.{FileConfig, World, generate_file_id, get_temp_path}
use swift_chat_system.File.Service.Uploading.{
  init_upload, append_found, append_chunk, complete_upload, upload,
}
use swift_chat_system.File.Uploads.Cleanup.{cleanup_expired_sessions-Fine}
use swift_chat_system.File.Service.Download.{delete_file, cleanup_expired_sessions}
use swift_chat_system.File.Uploads.{IsGood}
use swift_chat_system.File.Uploads.Frames.{update-IsCounted, Fine, append_chunk-Fine}
use swift_chat_system.File.Uploads.Frames.Others.{
  complete_upload-Fine, init_upload-Fine, upload-Fine, delete_file-Fine,
}

module _ (D : Db) (J : Json) (F : Files) (config : FileConfig) where
  -- A call that is not about the upload `i`. A new upload draws another identifier.
  pub data Step (i : Text) (w : World D F) : World D F → Type 0 where
    initiated :
        (user_id file_name content_type : Text) (file_size : ℤ) (md5 msg_id bytes : Text) (now : ℤ)
        → text_eq (generate_file_id bytes) i ≡ false
        → Step i w
            (init_upload D J F config w user_id file_name content_type file_size md5 msg_id bytes
              now).0
    appended :
        (j content : Text)
        → text_eq j i ≡ false
        → Step i w (append_chunk D J F config w j content).0
    completed :
        (j bytes : Text) (now : ℤ)
        → text_eq j i ≡ false
        → Step i w (complete_upload D J F config w j bytes now).0
    uploaded_whole :
        (user_id file_name content_type content bytes : Text) (now : ℤ)
        → Step i w (upload D J F config w user_id file_name content_type content bytes now).0
    -- The clean-up, at a time before the upload `i` expires.
    cleaned :
        (now : ℤ)
        → ((x : UploadSessionData)
            → get_upload_session D J w.db i ≡ some x
            → ltb_ℤ now x.expire_at ≡ true)
        → Step i w (cleanup_expired_sessions D J F w now)
    deleted : (file_id user_id : Text) → Step i w (delete_file D J F w file_id user_id).0

  pub data Steps (i : Text) (w : World D F) : World D F → Type 0 where
    here : Steps i w w
    next : {u v : World D F} → Steps i w u → Step i u v → Steps i w v

  -- The upload `i` got parts that make the content, among other calls.
  pub data Progress (i : Text) (w : World D F) : World D F → Text → Type 0 where
    begun : Progress i w w []
    chunk :
        {u : World D F} {content : Text} (c : Text)
        → Progress i w u content
        → (append_chunk D J F config u i c).1.success ≡ true
        → Progress i w (append_chunk D J F config u i c).0 (content ++ c)
    other :
        {u v : World D F} {content : Text}
        → Progress i w u content
        → Step i u v
        → Progress i w v content

module _ (D : Db) (J : Json) (F : Files) (config : FileConfig) (law : IsLawful D)
    (json_law : Json.IsLawful J) (disk : Disk.IsLawful F) where
  abbrev temp : Text → Text
  temp i = get_temp_path config.storage_path i

  Step-Fine :
      (i : Text) (w v : World D F)
      → IsGood D J config.storage_path w.db
      → Step D J F config i w v
      → Fine D J F config law json_law disk w i v
  Step-Fine i w _ good (initiated u n t z m g b now apart) =
      (init_upload-Fine D J F config law json_law disk w i good u n t z m g b now apart).state
  Step-Fine i w _ good (appended j c apart) =
      (append_chunk-Fine D J F config law json_law disk w i good j c apart).state
  Step-Fine i w _ good (completed j b now apart) =
      (complete_upload-Fine D J F config law json_law disk w i good j b now apart).state
  Step-Fine i w _ good (uploaded_whole u n t c b now) =
      (upload-Fine D J F config law json_law disk w i good u n t c b now).state
  Step-Fine i w _ good (cleaned now young) =
      cleanup_expired_sessions-Fine D J F config law json_law disk w i now good young
  Step-Fine i w _ good (deleted f u) =
      (delete_file-Fine D J F config law json_law disk w i good f u).state

  pub Steps-IsGood :
      (i : Text) (w v : World D F)
      → IsGood D J config.storage_path w.db
      → Steps D J F config i w v
      → IsGood D J config.storage_path v.db
  Steps-IsGood i w _ good here = good
  Steps-IsGood i w _ good (next {u} {v} before step) =
      (Step-Fine i u v (Steps-IsGood i w u good before) step).good

  -- The session of an upload that counts so many bytes, and its temporary file with the content.
  pub record IsUpload (i : Text) (x : UploadSessionData) (v : World D F) (n : ℕ) (content : Text)
      : Type 0 where
    pub good : IsGood D J config.storage_path v.db
    pub session : get_upload_session D J v.db i ≡ some (record x { bytes_written = pos n })
    pub file : or_empty (F.read v.files (temp i)) ≡ content

  pub append_chunk-IsUpload :
      (i : Text) (x : UploadSessionData) (v : World D F) (k : ℕ) (content c : Text)
      → IsUpload i x v k content
      → (append_chunk D J F config v i c).1.success ≡ true
      → IsUpload i x (append_chunk D J F config v i c).0 (k + length c) (content ++ c)
  unfolding append_chunk append_found
  append_chunk-IsUpload i x v k content c up ok =
      let y : UploadSessionData = record x { bytes_written = pos k } in
      let p = x.temp_path in
      let n = pos k +ℤ pos (length c) in
      let found = up.session in
      let placed : p ≡ temp i = (up.good.sessions i y found).1 in
      let made = F.make_parents v.files p in
      let o = F.open_append made.0 p in
      let wr = F.write o.0 p c in
      let fl = F.flush wr.0 p in
      let counted = update-IsCounted D J F config law json_law disk v.db i y n up.good found in
      let opened : o.1 ≡ true = ground (arith, found) in
      let written : wr.1 ≡ true = ground (arith, found) in
      let flushed : fl.1 ≡ true = ground (arith, found) in
      let stored : (update_upload_session_bytes D J v.db i n).1 ≡ true = ground (arith, found) in
      let left : (append_chunk D J F config v i c).0
          ≡ record { db = (update_upload_session_bytes D J v.db i n).0; files = fl.0 } =
        ground (arith, found) in
      let held = disk.read-open_append made.0 p opened in
      let grown = disk.read-flush o.0 p (or_empty (F.read made.0 p)) c held written flushed in
      let count : n ≡ pos (k + length c) = ground arith in
      let start : or_empty (F.read made.0 p) ≡ content =
        ap or_empty (disk.read-make_parents v.files p p)
        ∙ (ap (λ q. or_empty (F.read v.files q)) placed ∙ up.file) in
      subst (λ u. IsUpload i x u (k + length c) (content ++ c)) (sym left)
        (record {
          good = counted.good;
          session = counted.own stored ∙ ap (λ b. some (record x { bytes_written = b })) count;
          file =
              ap (λ q. or_empty (F.read fl.0 q)) (sym placed)
              ∙ (ap or_empty grown ∙ ap (λ (t : Text). t ++ c) start);
        })

  step-IsUpload :
      (i : Text) (x : UploadSessionData) (u v : World D F) (k : ℕ) (content : Text)
      → IsUpload i x u k content
      → Step D J F config i u v
      → IsUpload i x v k content
  step-IsUpload i x u v k content known step =
      let fine = Step-Fine i u v known.good step in
      record {
        good = fine.good;
        session = fine.session ∙ known.session;
        file = ap or_empty fine.file ∙ known.file;
      }

  pub Steps-IsUpload :
      (i : Text) (x : UploadSessionData) (w v : World D F) (k : ℕ) (content : Text)
      → IsUpload i x w k content
      → Steps D J F config i w v
      → IsUpload i x v k content
  Steps-IsUpload i x w _ k content up here = up
  Steps-IsUpload i x w _ k content up (next {u} {v} before step) =
      step-IsUpload i x u v k content (Steps-IsUpload i x w u k content up before) step

  pub Progress-IsUpload :
      (i : Text) (x : UploadSessionData) (w v : World D F) (content : Text)
      → IsUpload i x w 0 []
      → Progress D J F config i w v content
      → IsUpload i x v (length content) content
  Progress-IsUpload i x w _ _ up begun = up
  Progress-IsUpload i x w _ _ up (chunk {u} {content} c before ok) =
      subst (λ k. IsUpload i x (append_chunk D J F config u i c).0 k (content ++ c))
        (sym (length-append content c))
        (append_chunk-IsUpload i x u (length content) content c
          (Progress-IsUpload i x w u content up before) ok)
  Progress-IsUpload i x w _ content up (other {u} {v} before step) =
      let known = Progress-IsUpload i x w u content up before in
      step-IsUpload i x u v (length content) content known step
