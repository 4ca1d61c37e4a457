-- ===== src/Files/Transfer/Read.antt =====
-- The loop of `read_file` ends, and moves the bytes in order.
use femtolog.Prelude.{
  ℕ, zero, suc, ◌+◌, ◌-◌, ◌≤◌, ◌<◌, List, Option, none, some, ◌≡◌, refl, sym, ap, ◌∙◌, subst, inl,
  inr, true, false, length, take, ltb, arith, Bool-cases, take_all, take-add,
}
use femtolog.Files.Transfer.{
  success, Writer, Reader, after_read, write_file, read_loop, read_sized, read_file,
}
use femtolog.Files.Transfer.{round_of}
use femtolog.Files.Transfer.Write.{Written, write_file-Written}

-- The contents read are a first part of the file, within the size that `fstat` gives.
abbrev pub ReadFrom : List ℕ → ℕ → Option (List ℕ) → Type 0
ReadFrom file st_size none = ⊥
ReadFrom file st_size (some contents) = (n : ℕ) × (n ≤ st_size) × (contents ≡ take n file)

-- `read` on a file that no error stops: before its end it hands out a byte at least.
abbrev pub IsSteady : {file : List ℕ} → Reader file → Type 0
IsSteady {file} r =
    (offset n : ℕ) → offset < length file → 0 < n → (k : ℕ) × (r.read offset n ≡ some (suc k))

module _ (fuel : ℕ) (file : List ℕ) (r : Reader file) (st_size total : ℕ) where
  read_end :
      (contents : List ℕ)
      → st_size ≤ total
      → read_loop (suc fuel) file r st_size total contents ≡ some contents
  unfolding read_loop
  read_end contents past =
      ap
        (λ more. round_of more (some contents) (
          after_read (read_loop fuel file r st_size) file total contents
            (r.read total (st_size - total))))
        (let ended : ltb total st_size ≡ false = ground arith in ended)

  read_step :
      {answer : Option ℕ} (contents : List ℕ)
      → total < st_size
      → r.read total (st_size - total) ≡ answer
      → read_loop (suc fuel) file r st_size total contents
        ≡ after_read (read_loop fuel file r st_size) file total contents answer
  unfolding read_loop
  read_step contents more e =
      ap
        (λ more. round_of more (some contents) (
          after_read (read_loop fuel file r st_size) file total contents
            (r.read total (st_size - total))))
        (let going : ltb total st_size ≡ true = ground arith in going)
      ∙ ap (after_read (read_loop fuel file r st_size) file total contents) e

read_loop-ReadFrom :
    (fuel : ℕ) (file : List ℕ) (r : Reader file) (st_size total : ℕ)
    → st_size < total + fuel
    → total ≤ st_size
    → ReadFrom file st_size (read_loop fuel file r st_size total (take total file))
read_loop-ReadFrom zero file r st_size total enough inside = absurd (omega arith)
read_loop-ReadFrom (suc fuel) file r st_size total enough inside =
    elim (Bool-cases (ltb total st_size)) [
      | inr past ↦
          subst (ReadFrom file st_size)
            (sym (read_end fuel file r st_size total (take total file) (ground arith)))
            (total, inside, refl)
      | inl more ↦
          answered (λ k. read_loop-ReadFrom fuel file r st_size (total + suc k) (omega arith))
            (r.read total (st_size - total)) refl (ground arith)
    ]
  where
    answered :
        ((k : ℕ)
          → total + suc k ≤ st_size
          → ReadFrom file st_size
              (read_loop fuel file r st_size (total + suc k) (take (total + suc k) file)))
        → (answer : Option ℕ) → r.read total (st_size - total) ≡ answer
        → total < st_size
        → ReadFrom file st_size (read_loop (suc fuel) file r st_size total (take total file))
    answered ih none e more =
        subst (ReadFrom file st_size)
          (sym (read_step fuel file r st_size total (take total file) more e)) (total, inside, refl)
    answered ih (some zero) e more =
        subst (ReadFrom file st_size)
          (sym (read_step fuel file r st_size total (take total file) more e)) (total, inside, refl)
    answered ih (some (suc k)) e more =
        subst (ReadFrom file st_size)
          (sym (
            read_step fuel file r st_size total (take total file) more e
            ∙ ap (read_loop fuel file r st_size (total + suc k)) (take-add total (suc k) file)))
          (ih k (omega (arith, r.at_most total (st_size - total) (suc k) e, more)))

-- Without an error, the loop reads the whole file.
read_loop_steady :
    (fuel : ℕ) (file : List ℕ) (r : Reader file) (total : ℕ)
    → IsSteady r
    → length file < total + fuel
    → total ≤ length file
    → read_loop fuel file r (length file) total (take total file) ≡ some file
read_loop_steady zero file r total steady enough inside = absurd (omega arith)
read_loop_steady (suc fuel) file r total steady enough inside =
    elim (Bool-cases (ltb total (length file))) [
      | inr past ↦
          read_end fuel file r (length file) total (take total file) (ground arith)
          ∙ ap some (take_all total file (ground arith))
      | inl more ↦
          let going : total < length file = ground arith in
          let (k, e) = steady total (length file - total) going (omega arith) in
          read_step fuel file r (length file) total (take total file) going e
          ∙ ap (read_loop fuel file r (length file) (total + suc k)) (take-add total (suc k) file)
          ∙ read_loop_steady fuel file r (total + suc k) steady (omega arith)
              (omega (arith, r.at_most total (length file - total) (suc k) e))
    ]

-- `read_file` on a file that opens and has a size ends, whatever the calls of `read` answer, and hands
-- out a first part of the file within that size.
pub read_file-ReadFrom :
    (file : List ℕ) (r : Reader file) (st_size : ℕ)
    → ReadFrom file st_size
        (read_file (some (record { file = file; st_size = some st_size; reader = r })))
unfolding read_file read_sized
read_file-ReadFrom file r st_size =
    read_loop-ReadFrom (suc st_size) file r st_size 0 (omega arith) (omega arith)

-- What `write_file` reports as written, `read_file` reads back, where no error stops `read`: both
-- loops end, however the calls cut the bytes.
pub read_file-write_file :
    (w : Writer) (old content file : List ℕ)
    → write_file (some w) old content ≡ some (success, file)
    → (r : Reader file) → IsSteady r
    → read_file (some (record { file = file; st_size = some (length file); reader = r }))
      ≡ some content
unfolding read_file read_sized
read_file-write_file w old content file written r steady =
    read_loop_steady (suc (length file)) file r 0 steady (omega arith) (omega arith)
    ∙ ap some (subst (Written content) written (write_file-Written w old content))
