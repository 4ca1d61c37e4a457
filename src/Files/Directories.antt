-- ===== src/Files/Directories.antt =====
-- `create_directories` of src/core/base/file_util.cc.
pub mod Separators
pub mod Laws
use femtolog.Prelude.{
  ℕ, zero, suc, ◌+◌, ◌-◌, ◌*◌, ◌≤◌, ◌<◌, List, [], ◌∷◌, Option, none, some, Bool, true, false, not,
  ◌&&◌, ◌≡◌, ◌≢◌, refl, sym, ap, ◌∙◌, subst, ◌⊎◌, inl, inr, length, get_or, take, drop, ltb, ◌==◌,
  if◌then◌else◌, arith, Bool-cases, Option-cases,
}
use femtolog.Files.Path.{separator, sanitize_component}
use femtolog.Files.Lines.{memchr}

-- What `mkdir` answers: 0, or -1 with `EEXIST` or another error.
pub data Mkdir : Type 0 where
  made : Mkdir
  already_exists : Mkdir
  refused : Mkdir

-- The directories of the system, in a state of it. Directories stay when others are made.
pub record Tree (S : Type 0) : Type 0 where
  pub dir_exists : List ℕ → S → Bool
  pub mkdir : List ℕ → S → Mkdir × S
  pub made_exists : (p : List ℕ) (s : S) → (mkdir p s).0 ≡ made → dir_exists p (mkdir p s).1 ≡ true
  pub keeps : (p q : List ℕ) (s : S) → dir_exists p s ≡ true → dir_exists p (mkdir q s).1 ≡ true

module _ {S : Type 0} (t : Tree S) where
  -- `create_directory(dir) != 0`
  abbrev pub fails : Mkdir → Bool
  fails made = false
  fails already_exists = false
  fails refused = true

  -- The body of the loop, on one prefix of the path.
  unfoldable pub ensure : List ℕ → ℕ × S → ℕ × S
  ensure dir (result, s) =
      if not (length dir == 0) && not (t.dir_exists dir s)
      then ((if fails (t.mkdir dir s).0 then result + 1 else result), (t.mkdir dir s).1)
      else (result, s)

  -- `next_pos` by `find`, from `pos` on
  unfoldable pub make_from : ℕ → List ℕ → ℕ → ℕ × S → ℕ × S
  unfolding ensure memchr
  make_from zero path pos state = state
  make_from (suc fuel) path pos state = elim (ltb pos (length path)) [
    | false ↦ state
    | true ↦ elim (memchr separator (drop pos path)) [
      | none ↦ ensure path state
      | some k ↦ make_from fuel path (pos + k + 1) (ensure (take (pos + k) path) state)
    ]
  ]

  unfoldable pub create_directories : List ℕ → S → ℕ × S
  unfolding make_from
  create_directories path s =
      let sanitized_path : List ℕ = sanitize_component path true in
      make_from (length sanitized_path) sanitized_path 0 (0, s)
