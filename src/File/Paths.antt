-- ===== src/File/Paths.antt =====
-- The paths of FileSvr: the parts of an upload and the finished files never share one.
use swift_chat_system.Common.{
  ◌≡◌, refl, ◌∙◌, false, [], ◌∷◌, ◌++◌, ltb, length, take, if◌then◌else◌, arith,
}
use swift_chat_system.Common.Text.{Text, codes, text_eq}
use swift_chat_system.Common.Text.Fields.{text_eq-append_left}
use swift_chat_system.File.Service.{build_storage_path, get_temp_path}

pub text_eq-get_temp_path :
    (root i j : Text) → text_eq (get_temp_path root i) (get_temp_path root j) ≡ text_eq i j
unfolding get_temp_path
text_eq-get_temp_path root i j =
    text_eq-append_left root (codes "/.tmp/" ++ i) (codes "/.tmp/" ++ j)
    ∙ text_eq-append_left (codes "/.tmp/") i j

-- What follows the root, of a file that is finished.
stored : Text → Text
stored file_id =
    if ltb (length file_id) 2 then b'/' ∷ file_id else b'/' ∷ take 2 file_id ++ (b'/' ∷ file_id)

build_storage_path-stored : (root j : Text) → build_storage_path root j ≡ root ++ stored j
unfolding build_storage_path stored
build_storage_path-stored root j = ground arith

stored_apart :
    (i j : Text)
    → (text_eq (stored j) (codes "/.tmp/" ++ i) ≡ false)
      × (text_eq (codes "/.tmp/" ++ i) (stored j) ≡ false)
unfolding stored text_eq
stored_apart i [] = (refl, refl)
stored_apart i (c ∷ []) = (ground arith, ground arith)
stored_apart i (c ∷ d ∷ cs) = (ground arith, ground arith)

pub storage_path_apart :
    (root i j : Text) → text_eq (build_storage_path root j) (get_temp_path root i) ≡ false
unfolding get_temp_path
storage_path_apart root i j =
    rw (build_storage_path-stored root j)
      (text_eq-append_left root (stored j) (codes "/.tmp/" ++ i) ∙ (stored_apart i j).0)

pub temp_path_apart :
    (root i j : Text) → text_eq (get_temp_path root i) (build_storage_path root j) ≡ false
unfolding get_temp_path
temp_path_apart root i j =
    rw (build_storage_path-stored root j)
      (text_eq-append_left root (codes "/.tmp/" ++ i) (stored j) ∙ (stored_apart i j).1)
