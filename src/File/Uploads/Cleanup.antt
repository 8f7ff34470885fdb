-- ===== src/File/Uploads/Cleanup.antt =====
-- The clean-up leaves an upload that has not expired as it is.
use swift_chat_system.Common.{
  ◌≡◌, refl, sym, ap, ◌∙◌, true, false, some, List, [], ◌∷◌, arith, All, drop, Bool-cases,
  Option-cases, inl, inr,
}
use mathlib.Core.Path.{subst}
use swift_chat_system.Common.Int.{ℤ, ltb_ℤ}
use swift_chat_system.Common.Text.{Text, codes, text_eq, is_empty, text_eq_iff, append-drop_prefix}
use swift_chat_system.Json.{Json}
use swift_chat_system.Json
use swift_chat_system.Storage.{Db, IsLawful}
use swift_chat_system.Storage.Order.{Entries}
use swift_chat_system.Storage.Scan.{IsEntry, scan_IsEntry}
use swift_chat_system.File.Data.{UploadSessionData, key_upload, deserialize_upload}
use swift_chat_system.File.Store.{
  get_upload_session, delete_upload_session, read_uploads, list_all_upload_sessions,
}
use swift_chat_system.File.Disk.{Files}
use swift_chat_system.File.Disk
use swift_chat_system.File.Lookup.{get_upload_session-delete_upload_session}
use swift_chat_system.File.Paths.{text_eq-get_temp_path}
use swift_chat_system.File.Service.{FileConfig, World, get_temp_path}
use swift_chat_system.File.Service.Download.{expire, expire_all, cleanup_expired_sessions}
use swift_chat_system.File.Uploads.{IsGood, delete_upload_session-IsGood}
use swift_chat_system.File.Uploads.Frames.{Fine}

is_empty-nil : (t : Text) → is_empty t ≡ true → t ≡ []
is_empty-nil [] h = refl
is_empty-nil (c ∷ t) h = cc

module _ (D : Db) (J : Json) (root : Text) (law : IsLawful D) where
  -- What is listed is what a lookup finds.
  abbrev IsListed : D.State → UploadSessionData → Type 0
  IsListed s x =
      (get_upload_session D J s x.upload_id ≡ some x)
      × (x.temp_path ≡ get_temp_path root x.upload_id)

  entry-IsListed :
      (s : D.State) (k v : Text) (x : UploadSessionData)
      → IsGood D J root s
      → IsEntry D s (codes "upload:") (k, v)
      → deserialize_upload J v ≡ some x
      → IsListed s x
  unfolding get_upload_session
  entry-IsListed s k v x good (stored, under) read =
      let j = drop 7 k in
      let named : key_upload j ≡ k =
        unfold key_upload in append-drop_prefix (codes "upload:") k under in
      let at : D.get s (key_upload j) ≡ some v = ap (D.get s) named ∙ stored in
      elim (Bool-cases (is_empty j)) [
        | inl missing ↦
            let none_there = ap (λ t. D.get s (key_upload t)) (is_empty-nil j missing) in
            absurd (ground (arith, none_there, at, good.unnamed))
        | inr given ↦
            let found : get_upload_session D J s j ≡ some x = ground (arith, at) in
            let (own, placed) = good.sessions j x found in
            (ap (get_upload_session D J s) own ∙ found, placed ∙ ap (get_temp_path root) (sym own))
      ]

  read_uploads-IsListed :
      (s : D.State) (es : Entries)
      → IsGood D J root s
      → All (IsEntry D s (codes "upload:")) es
      → All (IsListed s) (read_uploads D J es)
  unfolding read_uploads
  read_uploads-IsListed s [] good e = tt
  read_uploads-IsListed s ((k, v) ∷ es) good e =
      let rest = read_uploads-IsListed s es good e.1 in
      elim (Option-cases (deserialize_upload J v)) [
        | inl unread ↦
            let eq : read_uploads D J ((k, v) ∷ es) ≡ read_uploads D J es =
              rw (unread, read_uploads) refl in
            subst (All (IsListed s)) (sym eq) rest
        | inr (x, read) ↦
            let eq : read_uploads D J ((k, v) ∷ es) ≡ x ∷ read_uploads D J es =
              rw (read, read_uploads) refl in
            subst (All (IsListed s)) (sym eq) (entry-IsListed s k v x good e.0 read, rest)
      ]

module _ (D : Db) (J : Json) (F : Files) (config : FileConfig) (law : IsLawful D)
    (json_law : Json.IsLawful J) (disk : Disk.IsLawful F) where
  abbrev temp : Text → Text
  temp i = get_temp_path config.storage_path i

  -- A session that the clean-up may meet: of another upload, or not expired.
  abbrev IsSafe : Text → ℤ → UploadSessionData → Type 0
  IsSafe i now x =
      (x.temp_path ≡ temp x.upload_id)
      × (text_eq x.upload_id i ≡ true → ltb_ℤ now x.expire_at ≡ true)

  module _ (w : World D F) (i : Text) where
    Fine-removed :
        (v : World D F) (j p : Text)
        → Fine D J F config law json_law disk w i v
        → text_eq j i ≡ false
        → p ≡ temp j
        → Fine D J F config law json_law disk w i (record v { files = (F.remove v.files p).0 })
    Fine-removed v j p fine apart placed = record {
      good = fine.good;
      session = fine.session;
      file =
          disk.remove_elsewhere v.files p (temp i)
            (rw placed (text_eq-get_temp_path config.storage_path j i ∙ apart))
          ∙ fine.file;
    }

    Fine-deleted :
        (v : World D F) (j : Text)
        → Fine D J F config law json_law disk w i v
        → text_eq j i ≡ false
        → Fine D J F config law json_law disk w i
            (record v { db = (delete_upload_session D J v.db j).0 })
    Fine-deleted v j fine apart = record {
      good = delete_upload_session-IsGood D J config.storage_path law json_law v.db j fine.good;
      session =
          ground (
            arith,
            get_upload_session-delete_upload_session D J law json_law v.db j i,
            fine.session,
          );
      file = fine.file;
    }

    expire-Fine :
        (now : ℤ) (v : World D F) (x : UploadSessionData)
        → Fine D J F config law json_law disk w i v
        → IsSafe i now x
        → Fine D J F config law json_law disk w i (expire D J F now v x)
    unfolding expire
    expire-Fine now v x fine (placed, young) = elim (Bool-cases (ltb_ℤ now x.expire_at)) [
      | inl ahead ↦ rw ahead fine
      | inr past ↦
          let apart : text_eq x.upload_id i ≡ false = elim (Bool-cases (text_eq x.upload_id i)) [
            | inl same ↦ absurd (ground (arith, young same))
            | inr differ ↦ differ
          ] in
          let removed = Fine-removed v x.upload_id x.temp_path fine apart placed in
          elim (Bool-cases (F.exists v.files x.temp_path)) [
            | inl there ↦ elim (Bool-cases (F.remove v.files x.temp_path).1) [
              | inl gone ↦
                  rw (past, there, gone)
                    (Fine-deleted (record v { files = (F.remove v.files x.temp_path).0 })
                      x.upload_id removed apart)
              | inr held ↦ rw (past, there, held) removed
            ]
            | inr absent ↦ rw (past, absent) (Fine-deleted v x.upload_id fine apart)
          ]
    ]

    expire_all-Fine :
        (now : ℤ) (v : World D F) (xs : List UploadSessionData)
        → Fine D J F config law json_law disk w i v
        → All (IsSafe i now) xs
        → Fine D J F config law json_law disk w i (expire_all D J F now v xs)
    unfolding expire_all
    expire_all-Fine now v [] fine safe = fine
    expire_all-Fine now v (x ∷ xs) fine safe =
        expire_all-Fine now (expire D J F now v x) xs (expire-Fine now v x fine safe.0) safe.1

    -- What is listed is safe where the upload itself has not expired.
    listed-IsSafe :
        (now : ℤ) (xs : List UploadSessionData)
        → ((x : UploadSessionData)
            → get_upload_session D J w.db i ≡ some x
            → ltb_ℤ now x.expire_at ≡ true)
        → All (IsListed D J config.storage_path law w.db) xs
        → All (IsSafe i now) xs
    listed-IsSafe now [] young listed = tt
    listed-IsSafe now (x ∷ xs) young listed = (
      (
        listed.0.1,
        λ same. young x (
            ap (get_upload_session D J w.db) (sym ((text_eq_iff x.upload_id i).0 same))
            ∙ listed.0.0),
      ),
      listed-IsSafe now xs young listed.1,
    )

    pub cleanup_expired_sessions-Fine :
        (now : ℤ)
        → IsGood D J config.storage_path w.db
        → ((x : UploadSessionData)
            → get_upload_session D J w.db i ≡ some x
            → ltb_ℤ now x.expire_at ≡ true)
        → Fine D J F config law json_law disk w i (cleanup_expired_sessions D J F w now)
    unfolding cleanup_expired_sessions list_all_upload_sessions
    cleanup_expired_sessions-Fine now good young =
        let es = D.scan w.db (codes "upload:") in
        let listed =
          read_uploads-IsListed D J config.storage_path law w.db es good
            (scan_IsEntry D law w.db (codes "upload:")) in
        expire_all-Fine now w (read_uploads D J es)
          (record { good = good; session = refl; file = refl })
          (listed-IsSafe now (read_uploads D J es) young listed)
