-- ===== src/File/Range.antt =====
-- ReadFileRange against ReadFile.
use swift_chat_system.Common.{
  ℕ, zero, suc, ◌+◌, ◌-◌, ◌≡◌, ◌≤◌, ◌<◌, refl, ap, ◌∙◌, false, some, [], ◌∷◌, arith, if◌then◌else◌,
  length, take, drop, Bool-cases, Option-cases, inl, inr, leb,
}
use swift_chat_system.Common.Int.{ℤ, ltb_ℤ, ◌+ℤ◌, ◌-ℤ◌, pos, negsuc, pos_part, to_int64}
use swift_chat_system.Common.Text.{Text}
use swift_chat_system.Json.{Json}
use swift_chat_system.Storage.{Db}
use swift_chat_system.File.Data.{FileMetaData}
use swift_chat_system.File.Store.{get_by_id}
use swift_chat_system.File.Disk.{Files}
use swift_chat_system.File.Service.{World}
use swift_chat_system.File.Service.Download.{
  Part, range_length, read_at, range_found, read_file, read_file_range,
}

-- The numbers that are too large for `int64_t` begin here.
abbrev pub int64_end : ℕ
int64_end = 9223372036854775808

length-drop : (n : ℕ) (t : Text) → length (drop n t) ≡ length t - n
length-drop zero t = omega arith
length-drop (suc n) [] = omega arith
length-drop (suc n) (c ∷ t) = omega (arith, length-drop n t)

take_all : (n : ℕ) (t : Text) → length t ≤ n → take n t ≡ t
take_all zero [] h = refl
take_all zero (c ∷ t) h = absurd (omega arith)
take_all (suc n) [] h = refl
take_all (suc n) (c ∷ t) h = ap (◌∷◌ c) (take_all n t (omega arith))

drop_all : (n : ℕ) (t : Text) → length t ≤ n → drop n t ≡ []
drop_all zero [] h = refl
drop_all zero (c ∷ t) h = absurd (omega arith)
drop_all (suc n) [] h = refl
drop_all (suc n) (c ∷ t) h = drop_all n t (omega arith)

take_none : (n : ℕ) → take {A = ℕ} n [] ≡ []
take_none zero = refl
take_none (suc n) = refl

-- A sum that fits into 63 bits does not wrap.
int64_sum : (o n : ℕ) → o + n < int64_end → to_int64 (pos o +ℤ pos n) ≡ pos (o + n)
unfolding to_int64
int64_sum o n h = ground arith

rest_length : (size o : ℕ) → leb size o ≡ false → pos size -ℤ pos o ≡ pos (size - o)
rest_length size o h = ground arith

-- The cut at the end of the file, from the end that was computed and from the length.
abbrev cut_at : ℤ → ℤ → ℤ → ℤ → ℤ
cut_at size offset len end = if ltb_ℤ size end then size -ℤ offset else len

abbrev cut : ℤ → ℤ → ℤ → ℤ
cut size offset len = cut_at size offset len (to_int64 (offset +ℤ len))

given_length : (rest : ℤ) (n : ℕ) → (if ltb_ℤ (pos n) (pos 0) then rest else pos n) ≡ pos n
given_length rest n = ground arith

whole_length : (rest : ℤ) (n : ℕ) → (if ltb_ℤ (negsuc n) (pos 0) then rest else negsuc n) ≡ rest
whole_length rest n = ground arith

size_left :
    (size o n : ℕ)
    → o + n < int64_end
    → leb size o ≡ false
    → pos_part (range_length (pos size) (pos o) (pos n))
      ≡ (if leb (o + n) size then n else size - o)
size_left size o n fits h =
    ap (λ l. pos_part (cut (pos size) (pos o) l)) (given_length (pos size -ℤ pos o) n)
    ∙ (ap (λ e. pos_part (cut_at (pos size) (pos o) (pos n) e)) (int64_sum o n fits) ∙ ground arith)

window :
    (t : Text) (o n : ℕ)
    → o + n < int64_end
    → leb (length t) o ≡ false
    → read_at t o (pos_part (range_length (pos (length t)) (pos o) (pos n)))
      ≡ some (take n (drop o t))
window t o n fits h = ground (
  arith,
  size_left (length t) o n,
  length-drop o t,
  take_all n (drop o t),
  take_all (length t - o) (drop o t),
)

rest_left :
    (size o n : ℕ)
    → size < int64_end
    → leb size o ≡ false
    → pos_part (range_length (pos size) (pos o) (negsuc n)) ≡ size - o
rest_left size o n fits h =
    ap (λ l. pos_part (cut (pos size) (pos o) l))
      (whole_length (pos size -ℤ pos o) n ∙ rest_length size o h)
    ∙ (ap (λ e. pos_part (cut_at (pos size) (pos o) (pos (size - o)) e))
          (int64_sum o (size - o) (ground arith))
        ∙ ground arith)

window_rest :
    (t : Text) (o n : ℕ)
    → length t < int64_end
    → leb (length t) o ≡ false
    → read_at t o (pos_part (range_length (pos (length t)) (pos o) (negsuc n))) ≡ some (drop o t)
window_rest t o n fits h =
    ground (arith, rest_left (length t) o n, length-drop o t, take_all (length t - o) (drop o t))

module _ (D : Db) (J : Json) (F : Files) where
  -- For a file whose size on the disk is the one in the database, ReadFileRange from an offset that
  -- is not negative gives what ReadFile gives from the offset on, up to the length, or all of it if
  -- the length is negative, and the size of the file. The sizes fit into an `int64_t`, and so does
  -- the sum of the offset and the length.
  pub read_file_range-read_file :
      (w : World D F) (file_id : Text) (m : FileMetaData) (p : Part) (o : ℕ) (n : ℕ)
      → get_by_id D J w.db file_id ≡ some m
      → read_file D J F w file_id ≡ some p
      → m.file_size ≡ pos (length p.content)
      → length p.content < int64_end
      → o + n < int64_end
      → (read_file_range D J F w file_id (pos o) (pos n)
          ≡ some (record p { content = take n (drop o p.content) }, m.file_size))
        × (read_file_range D J F w file_id (pos o) (negsuc n)
            ≡ some (record p { content = drop o p.content }, m.file_size))
  unfolding read_file read_file_range range_found
  read_file_range-read_file w file_id m p o n found whole size small fits =
      elim (Option-cases (F.read w.files m.storage_path)) [
        | inl missing ↦ absurd (ground arith)
        | inr (t, stored) ↦
            let same : p.content ≡ t = ground arith in
            elim (Bool-cases (leb (length t) o)) [
              | inl past ↦ (ground (arith, drop_all o t, take_none n), ground (arith, drop_all o t))
              | inr within ↦ (
                ground (arith, window t o n fits within),
                ground (arith, window_rest t o n (ground arith) within),
              )
            ]
      ]
