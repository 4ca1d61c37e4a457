-- ===== src/Args/Sizes.antt =====
-- The size that the serializer computes beforehand, and the bytes that it writes.
use femtolog.Prelude.{
  ℕ, ◌+◌, List, [], ◌∷◌, Bool, true, false, ◌≡◌, length, leb, if◌then◌else◌, arith, length-append,
}
use femtolog.Entry.{to_bytes}
use femtolog.Entry.Codec.{length-to_bytes}
use femtolog.Args.{
  Arg, text, scalar, object, type_of, header_size, add_arg_size, add_arg_sizes,
  calculate_min_serialized_size, dynamic_string_length, dynamic_strings_length, write_arg,
  write_args, serialize,
}
use femtolog.Args.RoundTrip.{IsCarried, AreCarried}

module _ (memory : ℕ → List ℕ) where
  length-write_arg :
      (ref_mode : Bool) (a : Arg)
      → IsCarried memory ref_mode a
      → length (write_arg ref_mode a)
        ≡ add_arg_size ref_mode (type_of a) + (if ref_mode then 0 else dynamic_string_length a)
  unfolding write_arg add_arg_size type_of
  length-write_arg true (text address s) carried = omega (
    arith,
    length-append (to_bytes 8 address) (to_bytes 8 (length s)),
    length-to_bytes 8 address,
    length-to_bytes 8 (length s),
  )
  length-write_arg false (text address s) carried =
      omega (arith, length-append (to_bytes 8 (length s)) s, length-to_bytes 8 (length s))
  length-write_arg true (scalar bytes) carried = omega arith
  length-write_arg false (scalar bytes) carried = omega arith
  length-write_arg true (object address bytes) carried = absurd carried
  length-write_arg false (object address bytes) carried = absurd carried

  length-write_args :
      (ref_mode : Bool) (args : List Arg)
      → AreCarried memory ref_mode args
      → length (write_args ref_mode args)
        ≡ add_arg_sizes ref_mode args + (if ref_mode then 0 else dynamic_strings_length args)
  unfolding write_args add_arg_sizes dynamic_strings_length
  length-write_args true [] carried = omega arith
  length-write_args false [] carried = omega arith
  length-write_args true (a ∷ args) (here, others) = omega (
    arith,
    length-append (write_arg true a) (write_args true args),
    length-write_arg true a here,
    length-write_args true args others,
  )
  length-write_args false (a ∷ args) (here, others) = omega (
    arith,
    length-append (write_arg false a) (write_args false args),
    length-write_arg false a here,
    length-write_args false args others,
  )

  -- The size that `serialize` sets.
  abbrev pub written_size : Bool → ℕ → List Arg → ℕ
  written_size true capacity args = calculate_min_serialized_size true args
  written_size false capacity args =
      let total = calculate_min_serialized_size false args + dynamic_strings_length args in
      if leb capacity total then 0 else total

  -- The number of bytes that `serialize` writes is the size that it computes beforehand, by value and
  -- by reference; by value, arguments that would not fit below the capacity leave no byte. The
  -- arguments must be such that the mode can carry them.
  pub length-serialize :
      (ref_mode : Bool) (capacity : ℕ) (header : List ℕ) (args : List Arg)
      → length header ≡ header_size
      → AreCarried memory ref_mode args
      → length (serialize ref_mode capacity header args) ≡ written_size ref_mode capacity args
  unfolding serialize calculate_min_serialized_size
  length-serialize true capacity header args sixteen carried = omega (
    arith,
    length-append header (write_args true args),
    length-write_args true args carried,
    sixteen,
  )
  length-serialize false capacity header args sixteen carried = ground (
    arith,
    length-append header (write_args false args),
    length-write_args false args carried,
    sixteen,
  )
