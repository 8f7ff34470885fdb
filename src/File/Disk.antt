-- ===== src/File/Disk.antt =====
-- The disk of FileSvr: `std::filesystem` and the file streams, as an interface with the behaviour
-- that is documented. Paths that are different texts are taken to name different files.
pub mod Memory
use swift_chat_system.Common.{
  ◌≡◌, Bool, true, false, Option, none, some, [], ◌++◌, if◌then◌else◌, is_some,
}
use swift_chat_system.Common.Text.{Text, text_eq}

pub record Files : Type 1 where
  pub State : Type 0
  -- The content of a file that can be opened.
  pub read : State → Text → Option Text
  pub exists : State → Text → Bool
  -- `create_directories` of a directory, and of the one that a path stands in; `false` is an error.
  pub make_dir : State → Text → State × Bool
  pub make_parents : State → Text → State × Bool
  -- A stream that is opened to append, or to write anew, is written to, and is flushed.
  pub open_append : State → Text → State × Bool
  pub open_new : State → Text → State × Bool
  pub write : State → Text → Text → State × Bool
  pub flush : State → Text → State × Bool
  pub rename : State → Text → Text → State × Bool
  pub remove : State → Text → State × Bool

abbrev pub or_empty : Option Text → Text
or_empty none = []
or_empty (some t) = t

-- The content of a path after a call at another path is as it was.
abbrev Elsewhere : (F : Files) → F.State → F.State → Text → Type 0
Elsewhere F s t p = (q : Text) → text_eq p q ≡ false → F.read t q ≡ F.read s q

pub record IsLawful (F : Files) : Type 0 where
  pub read-make_dir : (s : F.State) (p q : Text) → F.read (F.make_dir s p).0 q ≡ F.read s q
  pub read-make_parents : (s : F.State) (p q : Text) → F.read (F.make_parents s p).0 q ≡ F.read s q
  pub read-open_append :
      (s : F.State) (p : Text)
      → (F.open_append s p).1 ≡ true
      → F.read (F.open_append s p).0 p ≡ some (or_empty (F.read s p))
  pub open_append_elsewhere : (s : F.State) (p : Text) → Elsewhere F s (F.open_append s p).0 p
  pub read-open_new :
      (s : F.State) (p : Text) → (F.open_new s p).1 ≡ true → F.read (F.open_new s p).0 p ≡ some []
  pub open_new_elsewhere : (s : F.State) (p : Text) → Elsewhere F s (F.open_new s p).0 p
  -- What was written is in the file when it was flushed.
  pub read-flush :
      (s : F.State) (p c d : Text)
      → F.read s p ≡ some c
      → (F.write s p d).1 ≡ true
      → (F.flush (F.write s p d).0 p).1 ≡ true
      → F.read (F.flush (F.write s p d).0 p).0 p ≡ some (c ++ d)
  pub write_elsewhere : (s : F.State) (p d : Text) → Elsewhere F s (F.write s p d).0 p
  pub flush_elsewhere : (s : F.State) (p : Text) → Elsewhere F s (F.flush s p).0 p
  -- A file is moved as a whole, or the files stay as they are.
  pub read-rename :
      (s : F.State) (p q : Text)
      → text_eq p q ≡ false
      → (F.rename s p q).1 ≡ true
      → (d : Text) × (F.read s p ≡ some d) × (F.read (F.rename s p q).0 q ≡ some d)
  pub rename_elsewhere :
      (s : F.State) (p q r : Text)
      → text_eq p r ≡ false
      → text_eq q r ≡ false
      → F.read (F.rename s p q).0 r ≡ F.read s r
  pub remove_elsewhere : (s : F.State) (p : Text) → Elsewhere F s (F.remove s p).0 p
