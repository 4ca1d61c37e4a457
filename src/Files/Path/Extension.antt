-- ===== src/Files/Path/Extension.antt =====
-- The last component of a path is cut at its last dot.
use femtolog.Prelude.{
  drop-drop, ℕ, zero, suc, ◌+◌, ◌-◌, ◌<◌, List, [], ◌∷◌, ◌++◌, Option, none, some, ◌≡◌, ◌≢◌, refl,
  sym, ap, ◌∙◌, subst, ◌⊎◌, inl, inr, true, false, length, take, drop, ◌==◌, ==_iff, arith,
  Bool-cases, Option-cases, length-take, length-drop, take-append-drop,
}
use femtolog.Files.Path.{
  separator, dot, find_last_of, filename_part, opens_no_extension, file_extension, stem_at,
  extension_at, file_name_without_extension,
}
use femtolog.Files.Path.Pieces.{
  find_last_of-cons, find_last_of-Cut, find_last_of-lt, drop_there, apart,
}

-- No `c` stands in the text.
abbrev pub Free : ℕ → List ℕ → Type 0
Free c [] = Unit
Free c (x ∷ s) = (x ≢ c) × Free c s

find_last_of-Free : (c : ℕ) (s : List ℕ) → find_last_of c s ≡ none → Free c s
unfolding find_last_of
find_last_of-Free c [] e = tt
find_last_of-Free c (x ∷ s) e = elim (Option-cases (find_last_of c s)) [
  | inr (j, later) ↦ ground (arith, find_last_of-cons c x s later, e)
  | inl nowhere ↦ (
    λ same. ground (arith, (==_iff x c).1 same, find_last_of-cons c x s nowhere, e),
    find_last_of-Free c s nowhere,
  )
]

-- The last component of a path: what stands behind its last separator, or all of it.
abbrev pub Component : List ℕ → List ℕ → Type 0
Component path name =
    Free separator name
    × ((name ≡ path) ⊎ ((front : List ℕ) × (front ++ (separator ∷ name) ≡ path)))

-- A name has an extension if something stands before its last dot: what is before that dot, the dot,
-- and the extension. A name without a dot, or whose last dot opens it, has none.
abbrev pub Parts : List ℕ → List ℕ → List ℕ → Type 0
Parts name stem extension =
    ((stem ≡ name)
      × (extension ≡ [])
      × (Free dot name ⊎ ((back : List ℕ) × (name ≡ dot ∷ back) × Free dot back)))
    ⊎ ((stem ++ (dot ∷ extension) ≡ name) × Free dot extension × (0 < length stem))

no_slash :
    (path : List ℕ) (d : ℕ)
    → find_last_of dot path ≡ some d
    → (d == 0) ≡ false
    → Parts path (take d path) (drop (suc d) path)
no_slash path d at_d later =
    let cut = find_last_of-Cut dot path d at_d in
    inr (
      cut.whole,
      find_last_of-Free dot (drop (suc d) path) cut.last,
      ground (arith, length-take d path, find_last_of-lt dot path d at_d),
    )

behind_slash :
    (path : List ℕ) (p d : ℕ)
    → find_last_of separator path ≡ some p
    → find_last_of dot path ≡ some d
    → opens_no_extension (some p) d ≡ false
    → Parts (drop (suc p) path) (take (d - (p + 1)) (drop (suc p) path)) (drop (suc d) path)
behind_slash path p d at_p at_d later = inr (
  ap (λ zs. take (d - (p + 1)) (drop (suc p) path) ++ zs) (sym rest)
      ∙ take-append-drop (d - (p + 1)) (drop (suc p) path),
  find_last_of-Free dot (drop (suc d) path) (find_last_of-Cut dot path d at_d).last,
  omega (
    arith,
    order,
    length-take (d - (p + 1)) (drop (suc p) path),
    length-drop (suc p) path,
    find_last_of-lt dot path d at_d,
  ),
)
  where
    order : suc p < d
    order = ground (arith, later, apart path p d at_p at_d)

    rest : drop (d - (p + 1)) (drop (suc p) path) ≡ dot ∷ drop (suc d) path
    rest =
        ap (λ (k : ℕ). drop k (drop (suc p) path))
          (let e : d - (p + 1) ≡ d - suc p = omega arith in e)
        ∙ drop-drop (suc p) (d - (suc p)) path
        ∙ ap (λ (k : ℕ). drop k path) (omega (arith, order))
        ∙ drop_there dot path d at_d

Free-drop : (c n : ℕ) (s : List ℕ) → Free c s → Free c (drop n s)
Free-drop c zero s free = free
Free-drop c (suc n) [] free = tt
Free-drop c (suc n) (x ∷ s) free = Free-drop c n s free.1

-- The last dot stands before the last separator, or directly behind it.
hidden :
    (path : List ℕ) (p d : ℕ)
    → find_last_of separator path ≡ some p
    → find_last_of dot path ≡ some d
    → opens_no_extension (some p) d ≡ true
    → Parts (drop (suc p) path) (drop (suc p) path) []
hidden path p d at_p at_d first =
    let free = find_last_of-Free dot (drop (suc d) path) (find_last_of-Cut dot path d at_d).last in
    elim (Bool-cases (d == suc p)) [
      | inl opening ↦ inl (
        refl,
        refl,
        inr (
          drop (suc d) path,
          ap (λ (k : ℕ). drop k path) (sym ((==_iff d (suc p)).0 opening))
              ∙ drop_there dot path d at_d,
          free,
        ),
      )
      | inr elsewhere ↦
          let order : d < p = ground (arith, first, elsewhere, apart path p d at_p at_d) in
          inl (
            refl,
            refl,
            inl (
                subst (Free dot)
                  (drop-drop (suc d) (p - d) path
                    ∙ ap (λ (k : ℕ). drop k path)
                        (let e : suc d + (p - d) ≡ suc p = omega (arith, order) in e))
                  (Free-drop dot (p - d) (drop (suc d) path) free)),
          )
    ]

opening_dot :
    (path : List ℕ) (d : ℕ) → find_last_of dot path ≡ some d → (d == 0) ≡ true → Parts path path []
opening_dot path d at_d first = inl (
  refl,
  refl,
  inr (
    drop (suc d) path,
    ap (λ (k : ℕ). drop k path) (sym ((==_iff d 0).0 first)) ∙ drop_there dot path d at_d,
    find_last_of-Free dot (drop (suc d) path) (find_last_of-Cut dot path d at_d).last,
  ),
)

filename_part-Component :
    (path : List ℕ) → Component path (filename_part (find_last_of separator path) path)
filename_part-Component path = elim (Option-cases (find_last_of separator path)) [
  | inl flat ↦
      subst (λ (o : Option ℕ). Component path (filename_part o path)) (sym flat)
        (find_last_of-Free separator path flat, inl refl)
  | inr (p, at_p) ↦
      let cut = find_last_of-Cut separator path p at_p in
      subst (λ (o : Option ℕ). Component path (filename_part o path)) (sym at_p)
        (find_last_of-Free separator (drop (suc p) path) cut.last, inr (take p path, cut.whole))
]

-- `file_name_without_extension` and `file_extension` cut the last component of a path, which is what
-- stands behind the last separator or else the whole path, at its last dot, where something stands
-- before that dot. Of a component without a dot, or whose last dot is its first byte, the one is the
-- whole component and the other is empty.
pub file_extension_lem :
    (path : List ℕ)
    → (name : List ℕ) × Component path name
      × Parts name (file_name_without_extension path) (file_extension path)
unfolding file_name_without_extension file_extension
file_extension_lem path = (
  filename_part (find_last_of separator path) path,
  filename_part-Component path,
  elim (Option-cases (find_last_of dot path)) [
    | inl no_dot ↦
        subst (λ (o : Option ℕ). Parted (find_last_of separator path) o) (sym no_dot)
          (inl (
            refl,
            refl,
            inl (free_part (find_last_of separator path) (find_last_of-Free dot path no_dot)),
          ))
    | inr (d, at_d) ↦
        subst (λ (o : Option ℕ). Parted (find_last_of separator path) o) (sym at_d)
          (elim (Option-cases (find_last_of separator path)) [
            | inl flat ↦
                subst (λ (o : Option ℕ). Parted o (some d)) (sym flat)
                  (elim (Bool-cases (d == 0)) [
                    | inl first ↦ rw first (opening_dot path d at_d first)
                    | inr later ↦ rw later (no_slash path d at_d later)
                  ])
            | inr (p, at_p) ↦
                subst (λ (o : Option ℕ). Parted o (some d)) (sym at_p)
                  (elim (Bool-cases (opens_no_extension (some p) d)) [
                    | inl first ↦ rw first (hidden path p d at_p at_d first)
                    | inr later ↦ rw later (behind_slash path p d at_p at_d later)
                  ])
          ])
  ],
)
  where
    Parted : Option ℕ → Option ℕ → Type 0
    Parted s d = Parts (filename_part s path) (stem_at s d path) (extension_at s d path)

    free_part : (o : Option ℕ) → Free dot path → Free dot (filename_part o path)
    free_part none free = free
    free_part (some p) free = Free-drop dot (suc p) path free
