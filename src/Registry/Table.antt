-- ===== src/Registry/Table.antt =====
-- The table of strings: what is registered is found, and stays.
use femtolog.Prelude.{
  ℕ, zero, suc, ◌+◌, ◌≤◌, ◌<◌, ◌^◌, List, [], ◌∷◌, ◌++◌, true, ◌≡◌, refl, sym, ap, ap₂, ◌∙◌, ◌==◌,
  ==_iff, and_true, if◌then◌else◌, Bool-cases, inl, inr, length, take, drop, arith, length-take,
  take-append-drop,
}
use femtolog.Registry.{
  View, static_view, arena_view, StringRegistry, shown, get_string, register_string, same,
}

abbrev pub InArena : ℕ → View → Type 0
InArena n (static_view s) = Unit
InArena n (arena_view start len) = start + len ≤ n

-- The views on the arena lie in its used part.
pub record IsSound (r : StringRegistry) : Type 0 where
  pub used : r.arena_size ≤ length r.arena
  pub small : length r.arena < 2 ^ 63
  pub views : (id : ℕ) → InArena r.arena_size (r.table id)

take-append_short : (n : ℕ) (xs ys : List ℕ) → n ≤ length xs → take n (xs ++ ys) ≡ take n xs
take-append_short zero xs ys h = refl
take-append_short (suc n) [] ys h = absurd (omega arith)
take-append_short (suc n) (x ∷ xs) ys h =
    ap (λ zs. x ∷ zs) (take-append_short n xs ys (omega arith))

range-append :
    (start len : ℕ) (xs ys : List ℕ)
    → start + len ≤ length xs
    → take len (drop start (xs ++ ys)) ≡ take len (drop start xs)
range-append zero len xs ys h = take-append_short len xs ys (omega arith)
range-append (suc start) len [] ys h = absurd (omega arith)
range-append (suc start) len (x ∷ xs) ys h = range-append start len xs ys (omega arith)

pub same-eq : (xs ys : List ℕ) → same xs ys ≡ true → xs ≡ ys
unfolding same
same-eq [] [] h = refl
same-eq [] (y ∷ ys) h = ground arith
same-eq (x ∷ xs) [] h = ground arith
same-eq (x ∷ xs) (y ∷ ys) h =
    let (head, tail) = and_true (x == y) (same xs ys) h in
    ap₂ (λ (z : ℕ) zs. z ∷ zs) ((==_iff x y).0 head) (same-eq xs ys tail)

pub InArena-le : {m n : ℕ} (v : View) → m ≤ n → InArena m v → InArena n v
InArena-le (static_view s) h inside = tt
InArena-le (arena_view start len) h inside = omega (arith, h, inside)

-- Whatever is written behind the used part of an arena, its views show the same.
pub shown-kept :
    (n : ℕ) (arena rest : List ℕ) (v : View)
    → n ≤ length arena
    → InArena n v
    → shown (take n arena ++ rest) v ≡ shown arena v
shown-kept n arena rest (static_view s) h inside = refl
shown-kept n arena rest (arena_view start len) h inside =
    range-append start len (take n arena) rest room
    ∙ sym (range-append start len (take n arena) (drop n arena) room)
    ∙ ap (λ bytes. take len (drop start bytes)) (take-append-drop n arena)
  where
    room : start + len ≤ length (take n arena)
    room = omega (arith, length-take n arena, h, inside)

-- What holds after the string `s` is registered as `id`: all other strings are as before.
pub record Registered (r : StringRegistry) (id : ℕ) (s : List ℕ) (r' : StringRegistry)
    : Type 0 where
  pub sound : IsSound r'
  pub strings : (j : ℕ) → get_string r' j ≡ (if j == id then s else get_string r j)

-- `register_string` makes `get_string` of the identifier show the string, and changes no other one.
pub register_string-Registered :
    (r : StringRegistry) (id : ℕ) (s : List ℕ)
    → IsSound r
    → Registered r id s (register_string r id s)
unfolding register_string
register_string-Registered r id s sound = record {
  sound = record {
    used = sound.used;
    small = sound.small;
    views = λ j. elim (Bool-cases (j == id)) [
      | inl here ↦ rw here tt
      | inr there ↦ rw there (sound.views j)
    ];
  };
  strings =
      λ j. elim (Bool-cases (j == id)) [ inl here ↦ rw here refl | inr there ↦ rw there refl ];
}
