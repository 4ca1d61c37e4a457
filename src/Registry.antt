-- ===== src/Registry.antt =====
-- include/femtolog/base/string_registry.h: the identifiers of format strings, and the table of the
-- strings by identifier. `none` is a write past the arena.
pub mod Ids
pub mod Table
pub mod Arena
pub mod Tests
use femtolog.Prelude.{
  ℕ, ◌+◌, ◌-◌, ◌*◌, ◌/◌, ◌%◌, ◌^◌, List, [], ◌∷◌, ◌++◌, Option, none, some, Bool, true, false, not,
  ◌&&◌, ◌==◌, leb, ltb, if◌then◌else◌, length, take, drop, bit_and,
}
use Prim.Native.Nat.{bit_xor}
use femtolog.Word.{add_size, u16, u64}
use femtolog.Worker.{literal_id}

-- `static_cast<uint64_t>(c)` of a signed `char`.
abbrev pub char_word : ℕ → ℕ
char_word c = if ltb c 128 then c else 2 ^ 64 - 256 + c

-- The loop of `hash_string`.
unfoldable pub hash_from : ℕ → List ℕ → ℕ
hash_from hash [] = hash
hash_from hash (c ∷ str) = hash_from (u64 (bit_xor hash (char_word c) * 0x100000001b3)) str

unfoldable pub hash_string : List ℕ → ℕ
unfolding hash_from
hash_string str =
    let hash = hash_from 0xcbf29ce484222325 str in
    u16 (bit_xor (hash / 2 ^ 16) (bit_and hash 0xffff))

unfoldable pub get_string_id : List ℕ → ℕ
unfolding hash_string
get_string_id view = let id = hash_string view in if id == literal_id then literal_id - 1 else id

-- A `std::string_view` of the table: on a static string, or on a range of the arena.
pub data View : Type 0 where
  static_view : List ℕ → View
  arena_view : ℕ → ℕ → View

-- `table_` has an entry for each of the identifiers, which are of type `uint16_t`.
pub record StringRegistry : Type 0 where
  pub table : ℕ → View
  pub arena : List ℕ
  pub arena_size : ℕ

-- The bytes that a view shows.
abbrev pub shown : List ℕ → View → List ℕ
shown arena (static_view s) = s
shown arena (arena_view start len) = take len (drop start arena)

abbrev pub get_string : StringRegistry → ℕ → List ℕ
get_string r id = shown r.arena (r.table id)

abbrev pub set_view : StringRegistry → ℕ → View → StringRegistry
set_view r id v = record r { table = λ j. if j == id then v else r.table j }

unfoldable pub register_string : StringRegistry → ℕ → List ℕ → StringRegistry
register_string r id s = set_view r id (static_view s)

-- `operator==` of string views.
unfoldable pub same : List ℕ → List ℕ → Bool
same [] [] = true
same [] (y ∷ ys) = false
same (x ∷ xs) [] = false
same (x ∷ xs) (y ∷ ys) = x == y && same xs ys

-- The copy into the arena, and the new entry of the table.
unfoldable pub store_string : StringRegistry → ℕ → List ℕ → Option StringRegistry
store_string r id s =
    if leb (r.arena_size + length s) (length r.arena)
    then some (
        set_view
          (record r {
            arena = take r.arena_size r.arena ++ (s ++ drop (r.arena_size + length s) r.arena);
            arena_size = add_size r.arena_size (length s);
          })
          id (arena_view r.arena_size (length s)))
    else none

unfoldable pub register_string_arena : StringRegistry → ℕ → List ℕ → Option StringRegistry
unfolding same store_string
register_string_arena r id s =
    if not (length (get_string r id) == 0) && same (get_string r id) s
    then some r
    else store_string r id s
