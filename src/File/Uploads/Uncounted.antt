-- ===== src/File/Uploads/Uncounted.antt =====
-- A part that is on the disk and not counted.
use swift_chat_system.Common.{ℕ, ◌+◌, ◌≡◌, true, false, length}
use swift_chat_system.Common.Int.{pos}
use swift_chat_system.Common.Text.{Text}
use swift_chat_system.Json.{Json}
use swift_chat_system.Json
use swift_chat_system.Storage.{Db}
use swift_chat_system.File.Store.{update_upload_session_bytes}
use swift_chat_system.File.Disk.{Files}
use swift_chat_system.File.Disk
use swift_chat_system.File.Service.{FileConfig, World, get_temp_path}
use swift_chat_system.File.Uploads.Progress.{Progress}

module _ (D : Db) (J : Json) (F : Files) (config : FileConfig) where
  -- The disk takes a part that AppendChunk writes to the temporary file of the upload, and the
  -- database does not take the count of the bytes with it.
  pub record IsUncounted (w : World D F) (i c : Text) (n : ℕ) : Type 0 where
    pub opens :
        (F.open_append
          (F.make_parents w.files (get_temp_path config.storage_path i)).0
          (get_temp_path config.storage_path i)).1
        ≡ true
    pub writes :
        (F.write
          (F.open_append
            (F.make_parents w.files (get_temp_path config.storage_path i)).0
            (get_temp_path config.storage_path i)).0
          (get_temp_path config.storage_path i)
          c).1
        ≡ true
    pub flushes :
        (F.flush
          (F.write
            (F.open_append
              (F.make_parents w.files (get_temp_path config.storage_path i)).0
              (get_temp_path config.storage_path i)).0
            (get_temp_path config.storage_path i)
            c).0
          (get_temp_path config.storage_path i)).1
        ≡ true
    pub uncounted : (update_upload_session_bytes D J w.db i (pos (n + length c))).1 ≡ false
