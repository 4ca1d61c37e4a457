-- ===== src/Registry/Arena.antt =====
-- `register_string_arena`: the copy into the arena leaves every other string as it is.
use femtolog.Prelude.{
  ℕ, ◌+◌, ◌≤◌, List, ◌++◌, some, true, not, ◌&&◌, ◌≡◌, refl, sym, ap, ◌∙◌, ◌==◌, ==_iff, and_true,
  le→leb, Bool-cases, inl, inr, length, take, drop, arith, length-append, length-take, length-drop,
  take-eq_of_append, drop-eq_of_append,
}
use femtolog.Word.{add_size}
use femtolog.Registry.{
  arena_view, StringRegistry, get_string, set_view, same, store_string, register_string_arena,
}
use femtolog.Registry.Table.{IsSound, same-eq, InArena-le, shown-kept, Registered}

module _ (r : StringRegistry) (id : ℕ) (s : List ℕ) (sound : IsSound r)
    (room : r.arena_size + length s ≤ length r.arena) where
  rest : List ℕ
  rest = s ++ drop (r.arena_size + length s) r.arena

  used : length (take r.arena_size r.arena) ≡ r.arena_size
  used = omega (arith, length-take r.arena_size r.arena, sound.used)

  -- The registry after the copy.
  stored : StringRegistry
  stored =
      set_view
        (record r {
          arena = take r.arena_size r.arena ++ rest;
          arena_size = r.arena_size + length s;
        })
        id (arena_view r.arena_size (length s))

  store_string-stored : store_string r id s ≡ some stored
  unfolding store_string stored rest
  store_string-stored = rw (le→leb (r.arena_size + length s) (length r.arena) room, whole) refl
    where
      whole : add_size r.arena_size (length s) ≡ r.arena_size + length s
      whole = omega (arith, room, sound.small)

  length-arena : length (take r.arena_size r.arena ++ rest) ≡ length r.arena
  unfolding rest
  length-arena = omega (
    arith,
    room,
    used,
    length-append (take r.arena_size r.arena) (s ++ drop (r.arena_size + length s) r.arena),
    length-append s (drop (r.arena_size + length s) r.arena),
    length-drop (r.arena_size + length s) r.arena,
  )

  new_string : take (length s) (drop r.arena_size (take r.arena_size r.arena ++ rest)) ≡ s
  unfolding rest
  new_string =
      ap (take (length s)) (
        sym (
          drop-eq_of_append r.arena_size (take r.arena_size r.arena)
            (s ++ drop (r.arena_size + length s) r.arena) used refl))
      ∙ sym (take-eq_of_append (length s) s (drop (r.arena_size + length s) r.arena) refl refl)

  stored-Registered : Registered r id s stored
  unfolding stored
  stored-Registered = record {
    sound = record {
      used = omega (arith, room, length-arena);
      small = omega (arith, length-arena, sound.small);
      views = λ j. elim (Bool-cases (j == id)) [
        | inl here ↦ rw here (omega arith)
        | inr there ↦ rw there (InArena-le (r.table j) (omega arith) (sound.views j))
      ];
    };
    strings = λ j. elim (Bool-cases (j == id)) [
      | inl here ↦ rw here new_string
      | inr there ↦
          rw there (shown-kept r.arena_size r.arena rest (r.table j) sound.used (sound.views j))
    ];
  }

-- With room in the arena, `register_string_arena` returns, `get_string` of the identifier shows the
-- string, every other identifier shows what it showed before, and all views stay in the used part
-- of the arena.
pub register_string_arena-Registered :
    (r : StringRegistry) (id : ℕ) (s : List ℕ)
    → IsSound r
    → r.arena_size + length s ≤ length r.arena
    → (r' : StringRegistry) × (register_string_arena r id s ≡ some r') × Registered r id s r'
unfolding register_string_arena
register_string_arena-Registered r id s sound room =
    elim (Bool-cases (not (length (get_string r id) == 0) && same (get_string r id) s)) [
      | inl known ↦ rw known (r, refl, kept (and_true _ _ known).1)
      | inr fresh ↦ rw fresh (
        stored r id s sound room,
        store_string-stored r id s sound room,
        stored-Registered r id s sound room,
      )
    ]
  where
    kept : same (get_string r id) s ≡ true → Registered r id s r
    kept known = record {
      sound = sound;
      strings = λ j. elim (Bool-cases (j == id)) [
        | inl here ↦
            rw here (ap (get_string r) ((==_iff j id).0 here) ∙ same-eq (get_string r id) s known)
        | inr there ↦ rw there refl
      ];
    }
