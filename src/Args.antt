-- ===== src/Args.antt =====
-- The arguments of a log call as bytes: include/femtolog/logging/impl/args_serializer.h,
-- include/femtolog/logging/impl/args_deserializer.h and include/femtolog/base/serialize_util.h.
pub mod RoundTrip
pub mod Sizes
pub mod Tests
use femtolog.Prelude.{
  ℕ, zero, suc, ◌+◌, List, [], ◌∷◌, ◌++◌, Bool, true, false, length, take, drop, leb, ◌≡◌,
  if◌then◌else◌,
}
use femtolog.Word.{add_size}
use femtolog.Entry.{to_bytes, of_bytes}

-- An argument: string-like, with the address and the bytes of its view; trivially copyable, with the
-- bytes of its representation; or, by reference only, another object, with its address and its bytes.
pub data Arg : Type 0 where
  text : ℕ → List ℕ → Arg
  scalar : List ℕ → Arg
  object : ℕ → List ℕ → Arg

-- The type of an argument, as far as the code tells types apart.
pub data ArgType : Type 0 where
  text_type : ArgType
  scalar_type : ℕ → ArgType
  object_type : ArgType

unfoldable pub type_of : Arg → ArgType
type_of (text address s) = text_type
type_of (scalar bytes) = scalar_type (length bytes)
type_of (object address bytes) = object_type

-- `sizeof(SerializedArgsHeader)`
abbrev pub header_size : ℕ
header_size = 16

-- `add_arg_size` of `calculate_min_serialized_size`, by the mode.
unfoldable pub add_arg_size : Bool → ArgType → ℕ
add_arg_size true text_type = 16
add_arg_size false text_type = 0
add_arg_size ref_mode (scalar_type n) = n
add_arg_size ref_mode object_type = 8

unfoldable pub add_arg_sizes : Bool → List Arg → ℕ
unfolding add_arg_size type_of
add_arg_sizes ref_mode [] = 0
add_arg_sizes ref_mode (a ∷ args) = add_arg_size ref_mode (type_of a) + add_arg_sizes ref_mode args

unfoldable pub calculate_min_serialized_size : Bool → List Arg → ℕ
unfolding add_arg_sizes
calculate_min_serialized_size ref_mode args = header_size + add_arg_sizes ref_mode args

-- `add_dynamic_string_length`, over all arguments; a sum of sizes in memory.
abbrev pub dynamic_string_length : Arg → ℕ
dynamic_string_length (text address s) = 8 + length s
dynamic_string_length _ = 0

-- The sum stays below `2 ^ 64` for strings that are in memory at once.
unfoldable pub dynamic_strings_length : List Arg → ℕ
dynamic_strings_length [] = 0
dynamic_strings_length (a ∷ args) = dynamic_string_length a + dynamic_strings_length args

-- `write_arg`: what it writes at `pos`. Of an object it copies the first bytes of the object.
unfoldable pub write_arg : Bool → Arg → List ℕ
write_arg true (text address s) = to_bytes 8 address ++ to_bytes 8 (length s)
write_arg false (text address s) = to_bytes 8 (length s) ++ s
write_arg ref_mode (scalar bytes) = bytes
write_arg ref_mode (object address bytes) = take 8 bytes

unfoldable pub write_args : Bool → List Arg → List ℕ
unfolding write_arg
write_args ref_mode [] = []
write_args ref_mode (a ∷ args) = write_arg ref_mode a ++ write_args ref_mode args

-- `serialize`: the bytes in `args_` up to its size. By value, what does not fit leaves no bytes; by
-- reference, a static assertion has checked the size. `header` is the two function pointers.
unfoldable pub serialize : Bool → ℕ → List ℕ → List Arg → List ℕ
unfolding write_args calculate_min_serialized_size dynamic_strings_length
serialize true capacity header args = header ++ write_args true args
serialize false capacity header args =
    let total = calculate_min_serialized_size false args + dynamic_strings_length args in
    if leb capacity total then [] else header ++ write_args false args

-- What the deserializer makes of an argument: a string or a view, the bytes of a value, or the bytes
-- at an address that it follows. `memory` is what stands from an address on.
pub data Value : Type 0 where
  string_value : List ℕ → Value
  scalar_value : List ℕ → Value
  object_at : ℕ → Value

module _ (memory : ℕ → List ℕ) where
  -- `read_arg`: the value, and the offset behind it.
  unfoldable pub read_arg : Bool → ArgType → List ℕ → ℕ → Value × ℕ
  read_arg true text_type base offset =
      let raw_ptr = of_bytes (take 8 (drop offset base)) in
      let str_len = of_bytes (take 8 (drop (offset + 8) base)) in
      (string_value (take str_len (memory raw_ptr)), offset + 16)
  read_arg false text_type base offset =
      let str_len = of_bytes (take 8 (drop offset base)) in
      (string_value (take str_len (drop (offset + 8) base)), offset + 8 + str_len)
  read_arg ref_mode (scalar_type n) base offset =
      (scalar_value (take n (drop offset base)), offset + n)
  read_arg ref_mode object_type base offset =
      (object_at (of_bytes (take 8 (drop offset base))), offset + 8)

  -- One argument after the other, from left to right.
  unfoldable pub read_args : Bool → List ArgType → List ℕ → ℕ → List Value
  unfolding read_arg
  read_args ref_mode [] base offset = []
  read_args ref_mode (t ∷ types) base offset =
      let (value, next) = read_arg ref_mode t base offset in
      value ∷ read_args ref_mode types base next

  -- The calls of `read_arg` in the arguments of one call, evaluated from right to left: the values
  -- in the order of the types, and the offset behind the last one read.
  unfoldable pub read_args_right : Bool → List ArgType → List ℕ → ℕ → List Value × ℕ
  unfolding read_arg
  read_args_right ref_mode [] base offset = ([], offset)
  read_args_right ref_mode (t ∷ types) base offset =
      let (values, behind) = read_args_right ref_mode types base offset in
      let (value, next) = read_arg ref_mode t base behind in (value ∷ values, next)

  -- `format_directly`: the arguments that it passes on. Up to four are read by statements; more are
  -- read in the arguments of `std::make_tuple`, in an order that the compiler chooses.
  unfoldable pub deserialize : Bool → Bool → List ArgType → List ℕ → List Value
  unfolding read_args read_args_right
  deserialize left_to_right ref_mode types base =
      let in_order = read_args ref_mode types base 0 in
      let reversed = (read_args_right ref_mode types base 0).0 in
      if leb (length types) 4 then in_order else (if left_to_right then in_order else reversed)
