-- ===== src/Registry/Tests.antt =====
-- Runs of include/femtolog/base/string_registry.h, and instances of the theorems.
use femtolog.Prelude.{◌<◌, ◌^◌, [], some, ◌≡◌, ◌≢◌, replicate, arith}
use femtolog.Level.{codes}
use femtolog.Worker.{literal_id}
use femtolog.Registry.{StringRegistry, static_view, get_string_id, register_string_arena}
use femtolog.Registry.Ids.{get_string_id_lem}
use femtolog.Registry.Table.{IsSound, Registered}
use femtolog.Registry.Arena.{register_string_arena-Registered}

-- A registry with an arena of 32 bytes.
abbrev small_registry : StringRegistry
small_registry = record { table = λ j. static_view []; arena = replicate 32 0; arena_size = 0 }

small_registry-IsSound : IsSound small_registry
small_registry-IsSound = record { used = omega arith; small = omega arith; views = λ j. tt }

get_string_id_example :
    (get_string_id (codes "{} users") < 2 ^ 16) × (get_string_id (codes "{} users") ≢ literal_id)
get_string_id_example = get_string_id_lem (codes "{} users")

register_string_arena_example :
    (r' : StringRegistry) × (register_string_arena small_registry 7 (codes "{} users") ≡ some r')
    × Registered small_registry 7 (codes "{} users") r'
register_string_arena_example =
    register_string_arena-Registered small_registry 7 (codes "{} users") small_registry-IsSound
      (omega arith)
