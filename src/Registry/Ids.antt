-- ===== src/Registry/Ids.antt =====
-- Identifiers of format strings.
use femtolog.Prelude.{ℕ, ◌<◌, ◌^◌, List, ◌≢◌, arith}
use femtolog.Worker.{literal_id}
use femtolog.Registry.{hash_string, get_string_id}

hash_string-lt : (view : List ℕ) → hash_string view < 2 ^ 16
unfolding hash_string
hash_string-lt view = omega arith

-- The identifier of a format string is a word of 16 bits and never that of a literal message, so
-- that the worker does not take serialized arguments for a literal.
pub get_string_id_lem :
    (view : List ℕ) → (get_string_id view < 2 ^ 16) × (get_string_id view ≢ literal_id)
unfolding get_string_id
get_string_id_lem view = (ground (arith, hash_string-lt view), ground (arith, hash_string-lt view))
