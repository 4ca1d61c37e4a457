-- ===== src/Files/Path/Join.antt =====
-- `join_path` of include/femtolog/core/base/file_util.h puts a name under a directory.
use femtolog.Prelude.{
  ℕ, suc, ◌<◌, List, [], ◌∷◌, ◌++◌, Option, none, some, ◌≡◌, refl, ap, ◌∙◌, ◌⊎◌, inl, inr, Bool,
  true, false, ◌&&◌, length, drop, ◌==◌, ==_iff, if◌then◌else◌, arith, Option-cases, Bool-cases,
  take-append, length-append,
}
use femtolog.Files.Path.{
  separator, find_last_of, before, behind, parent_dir, base_name, drop_leading, drop_trailing,
  sanitize_component, join_from, join_path,
}
use femtolog.Files.Path.Pieces.{find_last_of-cons}

-- A name with no separator is a component as it stands.
abbrev pub IsName : List ℕ → Type 0
IsName name = (find_last_of separator name ≡ none) × (0 < length name)

length_zero : (s : List ℕ) → length s ≡ 0 → s ≡ []
length_zero [] e = refl
length_zero (x ∷ s) e = absurd (omega (arith, e))

tail_free :
    (c x : ℕ) (s : List ℕ)
    → find_last_of c (x ∷ s) ≡ none
    → (find_last_of c s ≡ none) × ((x == c) ≡ false)
tail_free c x s e = elim (Option-cases (find_last_of c s)) [
  | inr (j, later) ↦ ground (arith, find_last_of-cons c x s later, e)
  | inl nowhere ↦ (nowhere, ground (arith, find_last_of-cons c x s nowhere, e))
]

drop_leading_free : (s : List ℕ) → find_last_of separator s ≡ none → drop_leading s ≡ s
unfolding drop_leading
drop_leading_free [] e = refl
drop_leading_free (x ∷ s) e = rw ((tail_free separator x s e).1) refl

drop_trailing_free : (s : List ℕ) → find_last_of separator s ≡ none → drop_trailing s ≡ s
unfolding drop_trailing
drop_trailing_free [] e = refl
drop_trailing_free (x ∷ []) e = rw ((tail_free separator x [] e).1) refl
drop_trailing_free (x ∷ y ∷ s) e =
    ap (λ zs. x ∷ zs) (drop_trailing_free (y ∷ s) (tail_free separator x (y ∷ s) e).0)

sanitize_name : (s : List ℕ) → find_last_of separator s ≡ none → sanitize_component s false ≡ s
unfolding sanitize_component
sanitize_name s e = ap drop_trailing (drop_leading_free s e) ∙ drop_trailing_free s e

-- As long as no part has been taken, nothing is joined; so a name goes behind a separator.
join_from_last :
    (parts : List (List ℕ)) (joined : List ℕ) (is_first : Bool) (name : List ℕ)
    → IsName name
    → (is_first ≡ true → joined ≡ [])
    → 0 < length (join_from joined is_first parts)
    → join_from joined is_first (parts ++ (name ∷ []))
      ≡ join_from joined is_first parts ++ (separator ∷ name)
unfolding join_from
join_from_last [] joined true name n fresh some_part =
    absurd (omega (arith, some_part, ap length (fresh refl)))
join_from_last [] joined false name n fresh some_part =
    rw (sanitize_name name n.0, let taken : (length name == 0) ≡ false = ground (arith, n) in taken)
join_from_last (part ∷ parts) joined is_first name n fresh some_part =
    join_from_last parts _ _ name n (kept is_first fresh) some_part
  where
    kept :
        (first : Bool)
        → (first ≡ true → joined ≡ [])
        → (first && (length (sanitize_component part first) == 0)) ≡ true
        → (if length (sanitize_component part first) == 0
            then joined
            else (if first
                then joined ++ sanitize_component part first
                else joined ++ (separator ∷ sanitize_component part first)))
          ≡ []
    kept true fresh empty = rw empty (fresh refl)
    kept false fresh empty = ground arith

find_last_of-append :
    (c : ℕ) (front back : List ℕ)
    → find_last_of c back ≡ none
    → find_last_of c (front ++ (c ∷ back)) ≡ some (length front)
find_last_of-append c [] back e =
    find_last_of-cons c c back e ∙ ap (λ b. if b then some 0 else none) ((==_iff c c).1 refl)
find_last_of-append c (x ∷ front) back e =
    find_last_of-cons c x (front ++ (c ∷ back)) (find_last_of-append c front back e)

drop_past : (front back : List ℕ) (c : ℕ) → drop (suc (length front)) (front ++ (c ∷ back)) ≡ back
drop_past [] back c = refl
drop_past (x ∷ front) back c = drop_past front back c

sanitize_first : (s : List ℕ) → find_last_of separator s ≡ none → sanitize_component s true ≡ s
unfolding sanitize_component
sanitize_first s e = drop_trailing_free s e

-- If nothing has been taken, the name is taken as it stands.
join_from_nothing :
    (parts : List (List ℕ)) (joined : List ℕ) (is_first : Bool) (name : List ℕ)
    → IsName name
    → (is_first ≡ false → 0 < length joined)
    → length (join_from joined is_first parts) ≡ 0
    → join_from joined is_first (parts ++ (name ∷ [])) ≡ name
unfolding join_from
join_from_nothing [] joined true name n begun nothing = rw (
  sanitize_first name n.0,
  let taken : (length name == 0) ≡ false = ground (arith, n) in taken,
  length_zero joined nothing,
)
join_from_nothing [] joined false name n begun nothing = absurd (omega (arith, nothing, begun refl))
join_from_nothing (part ∷ parts) joined is_first name n begun nothing =
    join_from_nothing parts _ _ name n (kept is_first begun) nothing
  where
    kept :
        (first : Bool)
        → (first ≡ false → 0 < length joined)
        → (first && (length (sanitize_component part first) == 0)) ≡ false
        → 0
          < length (
              if length (sanitize_component part first) == 0
              then joined
              else (if first
                  then joined ++ sanitize_component part first
                  else joined ++ (separator ∷ sanitize_component part first)))
    kept true begun some_part =
        rw some_part
          (ground (arith, some_part, length-append joined (sanitize_component part true)))
    kept false begun e =
        ground (arith, begun refl, length-append joined (separator ∷ sanitize_component part false))

-- What a name makes behind a path: if the path is empty, the name alone, which has no directory; and
-- otherwise a path whose base name is the name and whose parent directory is the path.
abbrev pub Under : List ℕ → List ℕ → List ℕ → Type 0
Under path name joined =
    ((path ≡ []) × (joined ≡ name) × (parent_dir joined ≡ []) × (base_name joined ≡ []))
    ⊎ ((0 < length path) × (parent_dir joined ≡ path) × (base_name joined ≡ name))

-- Whatever the parts are, a name that is not empty and has no separator is joined behind them so: if
-- `join_path` makes the empty path of the parts, the result is the name alone, whose `parent_dir` and
-- `base_name` are empty; otherwise the name is the base name of the result, and the path of the parts
-- is its parent directory.
pub join_path_lem :
    (parts : List (List ℕ)) (name : List ℕ)
    → IsName name
    → Under (join_path parts) name (join_path (parts ++ (name ∷ [])))
unfolding join_path parent_dir base_name
join_path_lem parts name n =
    let front : List ℕ = join_from [] true parts in
    elim (Bool-cases (length front == 0)) [
      | inl nothing ↦
          let alone =
            join_from_nothing parts [] true name n (λ e. ground arith)
              ((==_iff (length front) 0).0 nothing) in
          inl (
            length_zero front ((==_iff (length front) 0).0 nothing),
            alone,
            ap parent_dir alone ∙ ap (λ (o : Option ℕ). before o name) n.0,
            ap base_name alone ∙ ap (λ (o : Option ℕ). behind o name) n.0,
          )
      | inr taken ↦
          let some_part : 0 < length front = ground (arith, taken) in
          let joined = join_from_last parts [] true name n (λ _. refl) some_part in
          let cut = find_last_of-append separator front name n.0 in
          inr (
            some_part,
            ap parent_dir joined
                ∙ ap (λ (o : Option ℕ). before o (front ++ (separator ∷ name))) cut
                ∙ take-append front (separator ∷ name),
            ap base_name joined
                ∙ ap (λ (o : Option ℕ). behind o (front ++ (separator ∷ name))) cut
                ∙ drop_past front name separator,
          )
    ]
