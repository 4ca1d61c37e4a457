-- ===== src/Files/Directories/Laws.antt =====
-- When `create_directories` reports no failure, the directories of the path are there.
use femtolog.Prelude.{
  ℕ, zero, suc, ◌+◌, ◌-◌, ◌≤◌, ◌<◌, List, Option, none, some, true, false, not, ◌&&◌, ◌≡◌, ◌≢◌,
  refl, sym, ap, ◌∙◌, subst, ◌⊎◌, inl, inr, length, get_or, take, drop, ltb, ◌==◌, if◌then◌else◌,
  arith, Bool-cases, Option-cases, length-take, length-drop, take_all, get_or-drop,
}
use native.Mathlib.Decide.{dec_lt}
use femtolog.Files.Path.{separator, sanitize_component}
use femtolog.Files.Lines.{memchr}
use femtolog.Files.Lines.Equivalence.{memchr-lt}
use femtolog.Files.Directories.{
  Mkdir, made, already_exists, refused, Tree, fails, ensure, make_from, create_directories,
}
use femtolog.Files.Directories.Separators.{memchr_absent, memchr_at, memchr_before}

-- Byte `k` of the path ends the name of a directory of it: a separator stands there, or it is the end
-- of a path with none at its end.
abbrev pub Stop : List ℕ → ℕ → Type 0
Stop path k =
    ((k < length path) × (get_or path k 0 ≡ separator))
    ⊎ ((k ≡ length path) × (get_or path (k - 1) 0 ≢ separator))

-- An answer `EEXIST` is about a directory, not about a file of that name.
abbrev pub IsClear : {S : Type 0} → Tree S → Type 0
IsClear {S} t =
    (p : List ℕ) (s : S) → (t.mkdir p s).0 ≡ already_exists → t.dir_exists p (t.mkdir p s).1 ≡ true

module _ {S : Type 0} (t : Tree S) where
  -- A later state has the directories of an earlier one, and no fewer failures.
  record Grows (a b : ℕ × S) : Type 0 where
    count : a.0 ≤ b.0
    stays : (p : List ℕ) → t.dir_exists p a.1 ≡ true → t.dir_exists p b.1 ≡ true

  ensure-Grows : (dir : List ℕ) (a : ℕ × S) → Grows a (ensure t dir a)
  unfolding ensure
  ensure-Grows dir (result, s) =
      elim (Bool-cases (not (length dir == 0) && not (t.dir_exists dir s))) [
        | inr skip ↦ rw skip (record { count = omega arith; stays = λ p h. h })
        | inl needed ↦ rw needed (record { count = ground arith; stays = λ p h. t.keeps p dir s h })
      ]

  ensure_lem :
      (dir : List ℕ) (a : ℕ × S)
      → IsClear t
      → 0 < length dir
      → (ensure t dir a).0 ≡ 0
      → t.dir_exists dir (ensure t dir a).1 ≡ true
  unfolding ensure
  ensure_lem dir (result, s) clear named none_failed = elim (Bool-cases (t.dir_exists dir s)) [
    | inl there ↦ (ensure-Grows dir (result, s)).stays dir there
    | inr missing ↦
        let needed : (not (length dir == 0) && not (t.dir_exists dir s)) ≡ true = ground arith in
        rw needed (
          answered (t.mkdir dir s).0 refl (
            ap
              (λ b.
                let after : ℕ × S =
                  if b
                  then (
                    (if fails t (t.mkdir dir s).0 then result + 1 else result),
                    (t.mkdir dir s).1,
                  )
                  else (result, s) in
                after.0)
              (sym needed)
            ∙ none_failed))
  ]
    where
      answered :
          (m : Mkdir)
          → (t.mkdir dir s).0 ≡ m
          → (if fails t (t.mkdir dir s).0 then result + 1 else result) ≡ 0
          → t.dir_exists dir (t.mkdir dir s).1 ≡ true
      answered made e h = t.made_exists dir s e
      answered already_exists e h = clear dir s e
      answered refused e h =
          absurd (omega (arith, ap (λ m. if fails t m then result + 1 else result) (sym e) ∙ h))

  -- What the loop does from `pos` on.
  record Ensures (path : List ℕ) (pos : ℕ) (a b : ℕ × S) : Type 0 where
    grows : Grows a b
    there :
        b.0 ≡ 0 → (k : ℕ) → pos ≤ k → 0 < k → Stop path k → t.dir_exists (take k path) b.1 ≡ true

  module _ (clear : IsClear t) (path : List ℕ) where
    -- `pos` is the start, or stands behind a separator.
    abbrev Behind : ℕ → Type 0
    Behind pos = 0 < pos → get_or path (pos - 1) 0 ≡ separator

    at_end :
        (pos : ℕ) (a : ℕ × S)
        → length path ≤ pos
        → pos ≤ length path
        → Behind pos
        → Ensures path pos a a
    at_end pos a past inside behind = record {
      grows = record { count = omega arith; stays = λ p h. h };
      there = λ none_failed k from positive stop. elim stop [
        | inl (before, _) ↦ absurd (omega arith)
        | inr (last, other) ↦ absurd (
            other (
              ap (λ (i : ℕ). get_or path (i - 1) 0) (let e : k ≡ pos = omega arith in e)
              ∙ behind (omega arith)))
      ];
    }

    last_part :
        (pos : ℕ) (a : ℕ × S)
        → pos < length path
        → memchr separator (drop pos path) ≡ none
        → Ensures path pos a (ensure t path a)
    last_part pos a inside last = record {
      grows = ensure-Grows path a;
      there = λ none_failed k from positive stop. elim stop [
        | inl (before, here) ↦ absurd (
            memchr_absent separator (drop pos path) (k - pos) last
              (omega (arith, length-drop pos path))
              (get_or-drop pos (k - pos) path 0
                ∙ ap (λ (i : ℕ). get_or path i 0) (let e : pos + (k - pos) ≡ k = omega arith in e)
                ∙ here))
        | inr (whole, _) ↦
            subst (λ dir. t.dir_exists dir (ensure t path a).1 ≡ true)
              (sym (take_all k path (omega arith)))
              (ensure_lem path a clear (omega arith) none_failed)
      ];
    }

    one_part :
        (pos j : ℕ) (a b : ℕ × S)
        → pos < length path
        → memchr separator (drop pos path) ≡ some j
        → Ensures path (pos + j + 1) (ensure t (take (pos + j) path) a) b
        → Ensures path pos a b
    one_part pos j a b inside found ih = record {
      grows = record {
        count = omega (arith, first.count, ih.grows.count);
        stays = λ p h. ih.grows.stays p (first.stays p h);
      };
      there = λ none_failed k from positive stop. elim (dec_lt k (pos + j)) [
        | yes early ↦ elim stop [
          | inl (before, here) ↦ absurd (
              memchr_before separator (drop pos path) j (k - pos) found (omega arith) (
                get_or-drop pos (k - pos) path 0
                ∙ ap (λ (i : ℕ). get_or path i 0) (let e : pos + (k - pos) ≡ k = omega arith in e)
                ∙ here))
          | inr (whole, _) ↦ absurd (omega (arith, near))
        ]
        | no late ↦ elim (dec_lt (pos + j) k) [
          | yes later ↦ ih.there none_failed k (omega arith) positive stop
          | no here ↦
              let e : pos + j ≡ k = omega arith in
              subst (λ (i : ℕ). t.dir_exists (take i path) b.1 ≡ true) e
                (ih.grows.stays (take (pos + j) path) (
                  ensure_lem (take (pos + j) path) a clear
                    (omega (arith, near, length-take (pos + j) path))
                    (omega (arith, ih.grows.count))))
        ]
      ];
    }
      where
        first : Grows a (ensure t (take (pos + j) path) a)
        first = ensure-Grows (take (pos + j) path) a

        near : pos + j < length path
        near = omega (arith, memchr-lt separator (drop pos path) j found, length-drop pos path)

    -- One round of the loop, by what `find` finds.
    abbrev round : ℕ → ℕ → ℕ × S → Option ℕ → ℕ × S
    round fuel pos a none = ensure t path a
    round fuel pos a (some k) =
        make_from t fuel path (pos + k + 1) (ensure t (take (pos + k) path) a)

    make_step :
        (fuel pos : ℕ) (a : ℕ × S) {found : Option ℕ}
        → pos < length path
        → memchr separator (drop pos path) ≡ found
        → make_from t (suc fuel) path pos a ≡ round fuel pos a found
    unfolding make_from
    make_step fuel pos a inside e =
        ap (λ b. elim b [ false ↦ a | true ↦ round fuel pos a (memchr separator (drop pos path)) ])
          (let more : ltb pos (length path) ≡ true = ground arith in more)
        ∙ ap (round fuel pos a) e

    make_stop : (fuel pos : ℕ) (a : ℕ × S) → length path ≤ pos → make_from t fuel path pos a ≡ a
    unfolding make_from
    make_stop zero pos a past = refl
    make_stop (suc fuel) pos a past =
        ap (λ b. elim b [ false ↦ a | true ↦ round fuel pos a (memchr separator (drop pos path)) ])
          (let ended : ltb pos (length path) ≡ false = ground arith in ended)

    make_from-Ensures :
        (fuel pos : ℕ) (a : ℕ × S)
        → length path ≤ pos + fuel
        → pos ≤ length path
        → Behind pos
        → Ensures path pos a (make_from t fuel path pos a)
    make_from-Ensures zero pos a enough inside behind =
        subst (Ensures path pos a) (sym (make_stop zero pos a (omega arith)))
          (at_end pos a (omega arith) inside behind)
    make_from-Ensures (suc fuel) pos a enough inside behind = elim (dec_lt pos (length path)) [
      | no past ↦
          subst (Ensures path pos a) (sym (make_stop (suc fuel) pos a (omega arith)))
            (at_end pos a (omega arith) inside behind)
      | yes more ↦ elim (Option-cases (memchr separator (drop pos path))) [
        | inl last ↦
            subst (Ensures path pos a) (sym (make_step fuel pos a more last))
              (last_part pos a more last)
        | inr (j, found) ↦
            let near : pos + j < length path =
              omega (arith, memchr-lt separator (drop pos path) j found, length-drop pos path) in
            subst (Ensures path pos a) (sym (make_step fuel pos a more found)) (
              one_part pos j a _ more found (
                make_from-Ensures fuel (pos + j + 1) (ensure t (take (pos + j) path) a)
                  (omega arith) (omega arith) (λ _. stands pos j found)))
      ]
    ]
      where
        stands :
            (pos j : ℕ)
            → memchr separator (drop pos path) ≡ some j
            → get_or path (pos + j + 1 - 1) 0 ≡ separator
        stands pos j found =
            ap (λ (i : ℕ). get_or path i 0) (let e : pos + j + 1 - 1 ≡ pos + j = omega arith in e)
            ∙ sym (get_or-drop pos j path 0)
            ∙ memchr_at separator (drop pos path) j found

  -- When `create_directories` returns 0, and `mkdir` answers `EEXIST` only for directories, then every
  -- directory on the way of the path is there: what stands before each of its separators, and the path
  -- itself when none stands at its end. Whatever it returns, no directory goes away.
  pub create_directories_lem :
      (path : List ℕ) (s : S)
      → IsClear t
      → ((create_directories t path s).0 ≡ 0
          → (k : ℕ) → 0 < k
          → Stop (sanitize_component path true) k
          → t.dir_exists (take k (sanitize_component path true)) (create_directories t path s).1
            ≡ true)
        × ((p : List ℕ)
            → t.dir_exists p s ≡ true
            → t.dir_exists p (create_directories t path s).1 ≡ true)
  unfolding create_directories
  create_directories_lem path s clear =
      let whole : List ℕ = sanitize_component path true in
      let done =
        make_from-Ensures clear whole (length whole) 0 (0, s) (omega arith) (omega arith)
          (λ h. absurd (omega arith)) in
      (λ none_failed k. done.there none_failed k (omega arith), done.grows.stays)
