-- ===== src/File/Disk/Memory.antt =====
-- A disk in memory that meets the laws: no call fails but a rename of a file that is missing.
use swift_chat_system.Common.{
  ◌≡◌, refl, true, false, Option, none, some, [], ◌++◌, if◌then◌else◌, is_some, arith, Option-cases,
  inl, inr,
}
use swift_chat_system.Common.Text.{Text, text_eq, text_eq_refl}
use swift_chat_system.File.Disk.{Files, IsLawful, or_empty}

abbrev pub Table : Type 0
Table = Text → Option Text

abbrev pub assign : Text → Option Text → Table → Table
assign p v s q = if text_eq p q then v else s q

abbrev pub memory_files : Files
memory_files = record {
  State = Table;
  read = λ s p. s p;
  exists = λ s p. is_some (s p);
  make_dir = λ s p. (s, true);
  make_parents = λ s p. (s, true);
  open_append = λ s p. (assign p (some (or_empty (s p))) s, true);
  open_new = λ s p. (assign p (some []) s, true);
  write = λ s p d. (assign p (some (or_empty (s p) ++ d)) s, true);
  flush = λ s p. (s, true);
  rename = λ s p q. (if is_some (s p) then assign p none (assign q (s p) s) else s, is_some (s p));
  remove = λ s p. (assign p none s, true);
}

moved :
    (s : Table) (p q : Text)
    → text_eq p q ≡ false
    → is_some (s p) ≡ true
    → (d : Text) × (s p ≡ some d) × (memory_files.read (memory_files.rename s p q).0 q ≡ some d)
moved s p q apart ok = elim (Option-cases (s p)) [
  | inl missing ↦ absurd (ground arith)
  | inr (d, found) ↦ (d, found, ground (arith, text_eq_refl q))
]

pub memory_files-IsLawful : IsLawful memory_files
memory_files-IsLawful = record {
  read-make_dir = λ s p q. refl;
  read-make_parents = λ s p q. refl;
  read-open_append = λ s p ok. rw (text_eq_refl p) refl;
  open_append_elsewhere = λ s p q h. rw h refl;
  read-open_new = λ s p ok. rw (text_eq_refl p) refl;
  open_new_elsewhere = λ s p q h. rw h refl;
  read-flush = λ s p c d held ok ok'. rw (text_eq_refl p, held) refl;
  write_elsewhere = λ s p d q h. rw h refl;
  flush_elsewhere = λ s p q h. refl;
  read-rename = λ s p q h ok. moved s p q h ok;
  rename_elsewhere = λ s p q r h h'. ground arith;
  remove_elsewhere = λ s p q h. rw h refl;
}
