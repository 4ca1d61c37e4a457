-- ===== src/Files/Search.antt =====
-- `is_executable_in_path`, `list_files` and `temp_directory` of src/core/base/file_util.cc: loops over
-- what the environment and the directory hold.
use femtolog.Prelude.{
  some_inj, ℕ, zero, suc, ◌+◌, ◌≤◌, ◌<◌, List, [], ◌∷◌, ◌++◌, Option, none, some, Bool, true, false,
  not, ◌&&◌, ◌||◌, ◌≡◌, refl, sym, ap, ◌∙◌, inl, inr, length, take, drop, ◌==◌, if◌then◌else◌,
  arith, Bool-cases, Option-cases, length-drop, drop-drop,
}
use femtolog.Files.Path.{separator, dot}
use femtolog.Files.Lines.{memchr}
use femtolog.Files.Lines.Equivalence.{memchr-cons, memchr_here, memchr-lt}

-- `FEMTOLOG_PATH_SEPARATOR`
abbrev pub path_separator : ℕ
path_separator = b':'

-- What the system says of a file name: `file_exists` and `access` with `X_OK`.
module _ (executable : List ℕ → Bool) (path : List ℕ) where
  -- `dir + FEMTOLOG_DIR_SEPARATOR + path`
  abbrev pub full_path : List ℕ → List ℕ
  full_path dir = dir ++ (separator ∷ path)

  unfoldable pub search_from : ℕ → List ℕ → ℕ → Bool
  unfolding memchr
  search_from zero path_var start = false
  search_from (suc fuel) path_var start = elim (memchr path_separator (drop start path_var)) [
    | none ↦ executable (full_path (drop start path_var))
    | some k ↦
        executable (full_path (take k (drop start path_var)))
        || search_from fuel path_var (start + k + 1)
  ]

  -- A round for each separator, and one for the last entry.
  unfoldable pub is_executable_in_path : Option (List ℕ) → Bool
  unfolding search_from
  is_executable_in_path none = false
  is_executable_in_path (some path_var) = search_from (length path_var + 1) path_var 0

-- The loop over `readdir`, with the names that it hands out; `none` for a directory that `opendir`
-- does not open.
abbrev pub same_name : List ℕ → List ℕ → Bool
same_name [] [] = true
same_name (x ∷ xs) (y ∷ ys) = x == y && same_name xs ys
same_name _ _ = false

unfoldable pub list_entries : List (List ℕ) → List (List ℕ)
list_entries [] = []
list_entries (name ∷ names) =
    let rest = list_entries names in
    if not (same_name name (dot ∷ [])) && not (same_name name (dot ∷ dot ∷ []))
    then name ∷ rest
    else rest

unfoldable pub list_files : Option (List (List ℕ)) → List (List ℕ)
unfolding list_entries
list_files none = []
list_files (some names) = list_entries names

-- The loop over `TMPDIR`, `TMP`, `TEMP` and `TEMPDIR`, with the value of each.
unfoldable pub temp_directory : List (Option (List ℕ)) → List ℕ
temp_directory [] = separator ∷ b't' ∷ b'm' ∷ b'p' ∷ separator ∷ []
temp_directory (none ∷ values) = temp_directory values
temp_directory (some [] ∷ values) = temp_directory values
temp_directory (some (c ∷ value) ∷ values) = (c ∷ value) ++ (separator ∷ [])

-- The entries of a search path, of which there is one at least.
abbrev pub entries : List ℕ → List (List ℕ)
entries [] = [] ∷ []
entries (c ∷ path_var) =
    let rest = entries path_var in
    if c == path_separator then [] ∷ rest else elim rest [ [] ↦ [] | dir ∷ dirs ↦ (c ∷ dir) ∷ dirs ]

abbrev pub any_of : (List ℕ → Bool) → List (List ℕ) → Bool
any_of p [] = false
any_of p (dir ∷ dirs) = p dir || any_of p dirs

Bool-or_false : (b : Bool) → b || false ≡ b
Bool-or_false true = refl
Bool-or_false false = refl

entries_last : (s : List ℕ) → memchr path_separator s ≡ none → entries s ≡ s ∷ []
entries_last [] e = refl
entries_last (c ∷ s) e = elim (Bool-cases (c == path_separator)) [
  | inl here ↦ ground (arith, memchr_here path_separator c s here, e)
  | inr other ↦ elim (Option-cases (memchr path_separator s)) [
    | inl nowhere ↦ rw (other, entries_last s nowhere)
    | inr (k, later) ↦ ground (arith, memchr-cons path_separator c s later other, e)
  ]
]

entries_next :
    (s : List ℕ) (k : ℕ)
    → memchr path_separator s ≡ some k
    → entries s ≡ take k s ∷ entries (drop (suc k) s)
unfolding memchr
entries_next [] k e = ground arith
entries_next (c ∷ s) k e = elim (Bool-cases (c == path_separator)) [
  | inl here ↦ rw here (
      ap (λ (i : ℕ). take i (c ∷ s) ∷ entries (drop (suc i) (c ∷ s)))
        (some_inj (sym (memchr_here path_separator c s here) ∙ e)))
  | inr other ↦ elim (Option-cases (memchr path_separator s)) [
    | inl nowhere ↦ ground (arith, memchr-cons path_separator c s nowhere other, e)
    | inr (j, later) ↦
        rw (other, entries_next s j later)
          (ap (λ (i : ℕ). take i (c ∷ s) ∷ entries (drop (suc i) (c ∷ s)))
            (some_inj (sym (memchr-cons path_separator c s later other) ∙ e)))
  ]
]

module _ (executable : List ℕ → Bool) (path : List ℕ) where
  abbrev found_in : List ℕ → Bool
  found_in dir = executable (full_path executable path dir)

  abbrev round : ℕ → List ℕ → ℕ → Option ℕ → Bool
  round fuel path_var start none = found_in (drop start path_var)
  round fuel path_var start (some k) =
      found_in (take k (drop start path_var))
      || search_from executable path fuel path_var (start + k + 1)

  search_from_step :
      (fuel : ℕ) (path_var : List ℕ) (start : ℕ) {found : Option ℕ}
      → memchr path_separator (drop start path_var) ≡ found
      → search_from executable path (suc fuel) path_var start ≡ round fuel path_var start found
  unfolding search_from
  search_from_step fuel path_var start e = ap (round fuel path_var start) e

  search_from_lem :
      (fuel : ℕ) (path_var : List ℕ) (start : ℕ)
      → length path_var < start + fuel
      → start ≤ length path_var
      → search_from executable path fuel path_var start
        ≡ any_of found_in (entries (drop start path_var))
  search_from_lem zero path_var start enough inside = absurd (omega arith)
  search_from_lem (suc fuel) path_var start enough inside =
      let left : List ℕ = drop start path_var in
      elim (Option-cases (memchr path_separator left)) [
        | inl last ↦
            search_from_step fuel path_var start last
            ∙ sym (Bool-or_false (found_in left))
            ∙ sym (ap (any_of found_in) (entries_last left last))
        | inr (k, found) ↦
            let near = memchr-lt path_separator left k found in
            search_from_step fuel path_var start found
            ∙ ap (λ b. found_in (take k left) || b)
                (search_from_lem fuel path_var (start + k + 1) (omega arith)
                    (omega (arith, near, length-drop start path_var))
                  ∙ ap (λ (i : ℕ). any_of found_in (entries (drop i path_var)))
                      (let e : start + k + 1 ≡ start + suc k = omega arith in e)
                  ∙ ap (λ s. any_of found_in (entries s)) (sym (drop-drop start (suc k) path_var)))
            ∙ sym (ap (any_of found_in) (entries_next left k found))
      ]

  -- `is_executable_in_path` is true when `PATH` is set and the name is executable in one of the
  -- directories that stand between its colons, the last one included, and false otherwise.
  pub is_executable_in_path_lem :
      (path_var : List ℕ)
      → (is_executable_in_path executable path (some path_var)
          ≡ any_of (λ dir. executable (dir ++ (separator ∷ path))) (entries path_var))
        × (is_executable_in_path executable path none ≡ false)
  unfolding is_executable_in_path
  is_executable_in_path_lem path_var =
      (search_from_lem (length path_var + 1) path_var 0 (omega arith) (omega arith), refl)
