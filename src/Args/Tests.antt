-- ===== src/Args/Tests.antt =====
-- Runs of the serializer and the deserializer, and instances of the theorems.
use femtolog.Prelude.{
  ℕ, List, [], ◌∷◌, ◌≡◌, refl, map, replicate, arith, true, false, length, drop, inl,
}
use femtolog.Args.{
  Arg, text, scalar, type_of, header_size, serialize, write_args, write_arg, read_arg, read_args,
  read_args_right, Value, scalar_value, string_value, deserialize,
}
use femtolog.Args.RoundTrip.{value_of, deserialize-serialize}
use femtolog.Args.Sizes.{written_size, length-serialize}

abbrev memory : ℕ → List ℕ
memory address = 100 ∷ 105 ∷ 115 ∷ 107 ∷ 0 ∷ []

abbrev disk : Arg
disk = text 4096 (100 ∷ 105 ∷ 115 ∷ 107 ∷ [])

abbrev header : List ℕ
header = replicate 16 1

deserialize_example :
    deserialize memory false true
      (map type_of (scalar (7 ∷ 0 ∷ []) ∷ disk ∷ []))
      (drop header_size (serialize true 2048 header (scalar (7 ∷ 0 ∷ []) ∷ disk ∷ [])))
    ≡ map value_of (scalar (7 ∷ 0 ∷ []) ∷ disk ∷ [])
unfolding femtolog.Args.calculate_min_serialized_size femtolog.Args.add_arg_sizes
    femtolog.Args.add_arg_size type_of femtolog.Args.dynamic_strings_length
deserialize_example =
    deserialize-serialize memory false true 2048 header (scalar (7 ∷ 0 ∷ []) ∷ disk ∷ []) refl
      (tt, ((omega arith, omega arith, refl), tt)) (inl (omega arith)) (omega arith)

length-serialize_example :
    length (serialize false 64 header (scalar (7 ∷ 0 ∷ []) ∷ disk ∷ []))
    ≡ written_size memory false 64 (scalar (7 ∷ 0 ∷ []) ∷ disk ∷ [])
length-serialize_example =
    length-serialize memory false 64 header (scalar (7 ∷ 0 ∷ []) ∷ disk ∷ []) refl
      (tt, (omega arith, tt))

-- Five arguments of one byte, read from right to left.
abbrev five : List Arg
five = scalar (1 ∷ []) ∷ scalar (2 ∷ []) ∷ scalar (3 ∷ []) ∷ scalar (4 ∷ []) ∷ scalar (5 ∷ []) ∷ []

misread :
    deserialize memory false false (map type_of five) (write_args false five)
    ≡ scalar_value (5 ∷ [])
      ∷ scalar_value (4 ∷ [])
      ∷ scalar_value (3 ∷ [])
      ∷ scalar_value (2 ∷ [])
      ∷ scalar_value (1 ∷ [])
      ∷ []
unfolding deserialize read_args_right read_args read_arg type_of write_args write_arg
misread = refl
