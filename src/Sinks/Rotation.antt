-- ===== src/Sinks/Rotation.antt =====
-- The name of the archive that the constructors of `FileSink` and `JsonLinesSink` compress an old log
-- into: the first that no file has. The text of the time is a parameter, and so is `file_exists`.
use femtolog.Prelude.{
  ℕ, zero, suc, ◌+◌, ◌≤◌, ◌<◌, List, [], ◌∷◌, ◌++◌, Option, none, some, Bool, true, false, ◌≡◌, sym,
  ap, ◌∙◌, ltb, if◌then◌else◌, arith, Bool-cases, inl, inr,
}
use native.Mathlib.Decide.{dec_lt}
use femtolog.Level.{codes}
use femtolog.Files.Path.{parent_dir, file_extension, file_name_without_extension, join_path}
use femtolog.Sinks.JsonLines.{decimal}

-- `compressed_file_name` for a value of `counter`.
unfoldable pub compressed_file_name : List ℕ → List ℕ → ℕ → List ℕ
unfolding file_name_without_extension file_extension decimal
compressed_file_name file_path base_timestamp_name counter =
    file_name_without_extension file_path
    ++ (codes "_"
        ++ (base_timestamp_name
            ++ ((if ltb 0 counter then codes "-" ++ decimal counter else [])
                ++ (codes "." ++ (file_extension file_path ++ codes ".gz")))))

unfoldable pub dest_path : List ℕ → List ℕ → ℕ → List ℕ
unfolding join_path parent_dir compressed_file_name
dest_path file_path base_timestamp_name counter =
    join_path
      (parent_dir file_path ∷ compressed_file_name file_path base_timestamp_name counter ∷ [])

-- The loop, from a value of `counter` on, an `int` that stays below `2 ^ 31` tried names; `none` is
-- out of fuel.
unfoldable pub archive_from : ℕ → (List ℕ → Bool) → List ℕ → List ℕ → ℕ → Option (List ℕ)
unfolding dest_path
archive_from zero file_exists file_path base_timestamp_name counter = none
archive_from (suc fuel) file_exists file_path base_timestamp_name counter =
    elim (file_exists (dest_path file_path base_timestamp_name counter)) [
      | true ↦ archive_from fuel file_exists file_path base_timestamp_name (counter + 1)
      | false ↦ some (dest_path file_path base_timestamp_name counter)
    ]

module _ (file_exists : List ℕ → Bool) (file_path base_timestamp_name : List ℕ) where
  abbrev dest : ℕ → List ℕ
  dest counter = dest_path file_path base_timestamp_name counter

  -- The first name from `counter` on that no file has.
  abbrev pub FirstFree : ℕ → Option (List ℕ) → Type 0
  FirstFree counter result =
      (m : ℕ) × (counter ≤ m)
      × (result ≡ some (dest_path file_path base_timestamp_name m))
      × (file_exists (dest_path file_path base_timestamp_name m) ≡ false)
      × ((j : ℕ)
          → counter ≤ j
          → j < m
          → file_exists (dest_path file_path base_timestamp_name j) ≡ true)

  archive_step :
      (fuel counter : ℕ) {b : Bool}
      → file_exists (dest counter) ≡ b
      → archive_from (suc fuel) file_exists file_path base_timestamp_name counter ≡ elim b [
        | true ↦ archive_from fuel file_exists file_path base_timestamp_name (counter + 1)
        | false ↦ some (dest counter)
      ]
  unfolding archive_from
  archive_step fuel counter e =
      ap
        (λ b. elim b [
          | true ↦ archive_from fuel file_exists file_path base_timestamp_name (counter + 1)
          | false ↦ some (dest counter)
        ])
        e

  -- When the name for `counter + fuel` is free, the loop from `counter` on ends within `fuel + 1` rounds,
  -- with the first name that no file has: so the archive overwrites no file.
  pub archive_from-FirstFree :
      (fuel counter : ℕ)
      → file_exists (dest_path file_path base_timestamp_name (counter + fuel)) ≡ false
      → FirstFree counter
          (archive_from (suc fuel) file_exists file_path base_timestamp_name counter)
  archive_from-FirstFree zero counter free =
      let here =
        ap (λ (n : ℕ). file_exists (dest n)) (let e : counter ≡ counter + 0 = omega arith in e)
        ∙ free in
      (counter, omega arith, archive_step zero counter here, here, λ j h k. absurd (omega arith))
  archive_from-FirstFree (suc fuel) counter free = elim (Bool-cases (file_exists (dest counter))) [
    | inr here ↦ (
      counter,
      omega arith,
      archive_step (suc fuel) counter here,
      here,
      λ j h k. absurd (omega arith),
    )
    | inl taken ↦
        let shift : counter + suc fuel ≡ counter + 1 + fuel = omega arith in
        let (m, from, result, unused, below) =
          archive_from-FirstFree fuel (counter + 1)
            (ap (λ (n : ℕ). file_exists (dest n)) (sym shift) ∙ free) in
        (
          m,
          omega arith,
          archive_step (suc fuel) counter taken ∙ result,
          unused,
          λ j h k. elim (dec_lt counter j) [
            | yes further ↦ below j (omega arith) k
            | no first ↦
                ap (λ (n : ℕ). file_exists (dest n)) (let e : j ≡ counter = omega arith in e)
                ∙ taken
          ],
        )
  ]
