-- ===== src/Files/Transfer/Write.antt =====
-- The loop of `write_file` ends, and moves the bytes in order.
use femtolog.Prelude.{
  ℕ, zero, suc, ◌+◌, ◌-◌, ◌≤◌, ◌<◌, List, Option, none, some, ◌≡◌, refl, sym, ap, ◌∙◌, subst, inl,
  inr, true, false, length, take, ltb, arith, Bool-cases, take_all, take-add,
}
use femtolog.Files.Transfer.{Code, success, failure, Writer, after_write, write_loop, write_file}
use femtolog.Files.Transfer.{round_of}

-- The file is a first part of the content: all of it on success, and less on failure.
abbrev pub Written : List ℕ → Option (Code × List ℕ) → Type 0
Written content none = ⊥
Written content (some (success, file)) = file ≡ content
Written content (some (failure, file)) = (n : ℕ) × (n < length content) × (file ≡ take n content)

module _ (fuel : ℕ) (w : Writer) (content : List ℕ) (total : ℕ) where
  write_end :
      length content ≤ total
      → write_loop (suc fuel) w content total content ≡ some (success, content)
  unfolding write_loop
  write_end past =
      ap
        (λ more. round_of more (some (success, content)) (
          after_write (write_loop fuel w content) content total content
            (w.write total (length content - total))))
        (let ended : ltb total (length content) ≡ false = ground arith in ended)

  write_step :
      {answer : Option ℕ} (file : List ℕ)
      → total < length content
      → w.write total (length content - total) ≡ answer
      → write_loop (suc fuel) w content total file
        ≡ after_write (write_loop fuel w content) content total file answer
  unfolding write_loop
  write_step file more e =
      ap
        (λ more. round_of more (some (success, file)) (
          after_write (write_loop fuel w content) content total file
            (w.write total (length content - total))))
        (let going : ltb total (length content) ≡ true = ground arith in going)
      ∙ ap (after_write (write_loop fuel w content) content total file) e

write_loop-Written :
    (fuel : ℕ) (w : Writer) (content : List ℕ) (total : ℕ)
    → length content < total + fuel
    → total ≤ length content
    → Written content (write_loop fuel w content total (take total content))
write_loop-Written zero w content total enough inside = absurd (omega arith)
write_loop-Written (suc fuel) w content total enough inside =
    elim (Bool-cases (ltb total (length content))) [
      | inr past ↦
          let ended : length content ≤ total = ground arith in
          subst (λ file. Written content (write_loop (suc fuel) w content total file))
            (sym (take_all total content ended))
            (subst (Written content) (sym (write_end fuel w content total ended)) refl)
      | inl more ↦
          answered (λ k. write_loop-Written fuel w content (total + suc k) (omega arith))
            (w.write total (length content - total)) refl (ground arith)
    ]
  where
    answered :
        ((k : ℕ)
          → total + suc k ≤ length content
          → Written content
              (write_loop fuel w content (total + suc k) (take (total + suc k) content)))
        → (answer : Option ℕ) → w.write total (length content - total) ≡ answer
        → total < length content
        → Written content (write_loop (suc fuel) w content total (take total content))
    answered ih none e more =
        subst (Written content) (sym (write_step fuel w content total (take total content) more e))
          (total, more, refl)
    answered ih (some zero) e more =
        subst (Written content) (sym (write_step fuel w content total (take total content) more e))
          (total, more, refl)
    answered ih (some (suc k)) e more =
        subst (Written content)
          (sym (
            write_step fuel w content total (take total content) more e
            ∙ ap (write_loop fuel w content (total + suc k)) (take-add total (suc k) content)))
          (ih k (omega (arith, w.at_most total (length content - total) (suc k) e, more)))

-- `write_file` on a file that opens ends, however few bytes each call of `write` takes: it returns 0
-- with the whole content in the file, or -1 with a first part of it, and less than the whole.
pub write_file-Written :
    (w : Writer) (old content : List ℕ) → Written content (write_file (some w) old content)
unfolding write_file
write_file-Written w old content =
    write_loop-Written (suc (length content)) w content 0 (omega arith) (omega arith)
