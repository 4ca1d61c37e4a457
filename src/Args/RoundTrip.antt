-- ===== src/Args/RoundTrip.antt =====
-- What is serialized is deserialized, and fits the buffer.
use femtolog.Prelude.{
  ℕ, ◌+◌, ◌≤◌, ◌<◌, ◌^◌, List, [], ◌∷◌, ◌++◌, map, Bool, true, false, ◌≡◌, refl, sym, ap, ap₂, ◌∙◌,
  ◌⊎◌, inl, inr, length, take, drop, leb, le→leb, arith, length-append, length-map, append_assoc,
  take-eq_of_append, drop-eq_of_append,
}
use femtolog.Entry.{to_bytes, of_bytes}
use femtolog.Entry.Codec.{length-to_bytes, of_bytes-to_bytes8}
use femtolog.Args.{
  Arg, text, scalar, object, text_type, type_of, header_size, calculate_min_serialized_size,
  dynamic_strings_length, write_arg, write_args, serialize, Value, string_value, scalar_value,
  object_at, read_arg, read_args, deserialize,
}

-- What an argument is to be read back as.
abbrev pub value_of : Arg → Value
value_of (text address s) = string_value s
value_of (scalar bytes) = scalar_value bytes
value_of (object address bytes) = object_at address

module _ (memory : ℕ → List ℕ) where
  -- An argument that the mode can carry: sizes and addresses are machine words, and a view by
  -- reference still finds its bytes in memory when it is read.
  abbrev pub IsCarried : Bool → Arg → Type 0
  IsCarried true (text address s) =
      (address < 2 ^ 64) × (length s < 2 ^ 64) × (take (length s) (memory address) ≡ s)
  IsCarried false (text address s) = length s < 2 ^ 64
  IsCarried ref_mode (scalar bytes) = Unit
  IsCarried ref_mode (object address bytes) = ⊥

  abbrev pub AreCarried : Bool → List Arg → Type 0
  AreCarried ref_mode [] = Unit
  AreCarried ref_mode (a ∷ args) = IsCarried ref_mode a × AreCarried ref_mode args

  word_at :
      (before : List ℕ) (n : ℕ) (rest : List ℕ)
      → n < 2 ^ 64
      → of_bytes (take 8 (drop (length before) (before ++ (to_bytes 8 n ++ rest)))) ≡ n
  word_at before n rest small =
      ap (λ bytes. of_bytes (take 8 bytes))
        (sym (drop-eq_of_append (length before) before (to_bytes 8 n ++ rest) refl refl))
      ∙ ap of_bytes (sym (take-eq_of_append 8 (to_bytes 8 n) rest (length-to_bytes 8 n) refl))
      ∙ of_bytes-to_bytes8 n small

  -- Eight bytes further on.
  past_word :
      (before : List ℕ) (n : ℕ) (rest : List ℕ)
      → drop (length before + 8) (before ++ (to_bytes 8 n ++ rest)) ≡ rest
  past_word before n rest = sym (
      drop-eq_of_append (length before + 8) (before ++ to_bytes 8 n) rest
        (omega (arith, length-append before (to_bytes 8 n), length-to_bytes 8 n))
        (append_assoc before (to_bytes 8 n) rest))

  read_scalar :
      (before bytes rest : List ℕ)
      → ◌≡◌ {A = Value × ℕ}
          (
            scalar_value (take (length bytes) (drop (length before) (before ++ (bytes ++ rest)))),
            length before + length bytes,
          )
          (scalar_value bytes, length (before ++ bytes))
  read_scalar before bytes rest = λ i. (scalar_value (value i), behind i)
    where
      value : take (length bytes) (drop (length before) (before ++ (bytes ++ rest))) ≡ bytes
      value =
          ap (take (length bytes))
            (sym (drop-eq_of_append (length before) before (bytes ++ rest) refl refl))
          ∙ sym (take-eq_of_append (length bytes) bytes rest refl refl)

      behind : length before + length bytes ≡ length (before ++ bytes)
      behind = sym (length-append before bytes)

  read_written :
      (ref_mode : Bool) (before : List ℕ) (a : Arg) (rest : List ℕ)
      → IsCarried ref_mode a
      → read_arg memory ref_mode
          (type_of a)
          (before ++ (write_arg ref_mode a ++ rest))
          (length before)
        ≡ (value_of a, length (before ++ write_arg ref_mode a))
  unfolding read_arg write_arg type_of
  read_written true before (text address s) rest (word, size, found) =
      ap (λ base. read_arg memory true text_type base (length before))
        (ap (λ bytes. before ++ bytes)
          (append_assoc (to_bytes 8 address) (to_bytes 8 (length s)) rest))
      ∙ (λ i. (string_value (take (second i) (memory (first i))), behind i))
      ∙ ap (λ bytes. (string_value bytes, length (before ++ write_arg true (text address s)))) found
    where
      first :
          of_bytes (
            take 8 (
              drop
                (length before)
                (before ++ (to_bytes 8 address ++ (to_bytes 8 (length s) ++ rest)))))
          ≡ address
      first = word_at before address (to_bytes 8 (length s) ++ rest) word

      second :
          of_bytes (
            take 8 (
              drop
                (length before + 8)
                (before ++ (to_bytes 8 address ++ (to_bytes 8 (length s) ++ rest)))))
          ≡ length s
      second =
          ap (λ bytes. of_bytes (take 8 bytes))
            (past_word before address (to_bytes 8 (length s) ++ rest))
          ∙ word_at [] (length s) rest size

      behind : length before + 16 ≡ length (before ++ write_arg true (text address s))
      behind = omega (
        arith,
        length-append before (to_bytes 8 address ++ to_bytes 8 (length s)),
        length-append (to_bytes 8 address) (to_bytes 8 (length s)),
        length-to_bytes 8 address,
        length-to_bytes 8 (length s),
      )
  read_written false before (text address s) rest size =
      ap (λ base. read_arg memory false text_type base (length before))
        (ap (λ bytes. before ++ bytes) (append_assoc (to_bytes 8 (length s)) s rest))
      ∙ (λ i. (string_value (take (len i) (from i)), length before + 8 + len i))
      ∙ ap₂ (λ bytes (n : ℕ). (string_value bytes, n))
          (sym (take-eq_of_append (length s) s rest refl refl)) behind
    where
      len :
          of_bytes
            (take 8 (drop (length before) (before ++ (to_bytes 8 (length s) ++ (s ++ rest)))))
          ≡ length s
      len = word_at before (length s) (s ++ rest) size

      from : drop (length before + 8) (before ++ (to_bytes 8 (length s) ++ (s ++ rest))) ≡ s ++ rest
      from = past_word before (length s) (s ++ rest)

      behind : length before + 8 + length s ≡ length (before ++ write_arg false (text address s))
      behind = omega (
        arith,
        length-append before (to_bytes 8 (length s) ++ s),
        length-append (to_bytes 8 (length s)) s,
        length-to_bytes 8 (length s),
      )
  read_written true before (scalar bytes) rest carried = read_scalar before bytes rest
  read_written false before (scalar bytes) rest carried = read_scalar before bytes rest
  read_written true before (object address bytes) rest carried = absurd carried
  read_written false before (object address bytes) rest carried = absurd carried

  read_args-written :
      (ref_mode : Bool) (before : List ℕ) (args : List Arg)
      → AreCarried ref_mode args
      → read_args memory ref_mode
          (map type_of args)
          (before ++ write_args ref_mode args)
          (length before)
        ≡ map value_of args
  unfolding read_args write_args
  read_args-written ref_mode before [] carried = refl
  read_args-written ref_mode before (a ∷ args) (here, others) =
      let step = read_written ref_mode before a (write_args ref_mode args) here in
      ap
        (λ ((value, next) : Value × ℕ).
          value
          ∷ read_args memory ref_mode (map type_of args)
              (before ++ (write_arg ref_mode a ++ write_args ref_mode args)) next)
        step
      ∙ ap
          (λ bytes.
            value_of a
            ∷ read_args memory ref_mode (map type_of args) bytes
                (length (before ++ write_arg ref_mode a)))
          (sym (append_assoc before (write_arg ref_mode a) (write_args ref_mode args)))
      ∙ ap (λ values. value_of a ∷ values)
          (read_args-written ref_mode (before ++ write_arg ref_mode a) args others)

  serialized :
      (ref_mode : Bool) (capacity : ℕ) (header : List ℕ) (args : List Arg)
      → calculate_min_serialized_size ref_mode args + dynamic_strings_length args < capacity
      → serialize ref_mode capacity header args ≡ header ++ write_args ref_mode args
  unfolding serialize
  serialized true capacity header args room = refl
  serialized false capacity header args room = rw fits refl
    where
      fits :
          leb capacity (calculate_min_serialized_size false args + dynamic_strings_length args)
          ≡ false
      fits = ground (arith, room)

  -- What the deserializer reads behind the 16 bytes of the header of serialized arguments is what
  -- was serialized, by value and by reference, for up to four arguments on any compiler, and for
  -- any number on a compiler that evaluates the arguments of a call from left to right. The
  -- arguments must be such that the mode can carry them, and their sizes must add up to less than
  -- the capacity.
  pub deserialize-serialize :
      (left_to_right ref_mode : Bool) (capacity : ℕ) (header : List ℕ) (args : List Arg)
      → length header ≡ header_size
      → AreCarried ref_mode args
      → (length args ≤ 4) ⊎ (left_to_right ≡ true)
      → calculate_min_serialized_size ref_mode args + dynamic_strings_length args < capacity
      → deserialize memory left_to_right ref_mode
          (map type_of args)
          (drop header_size (serialize ref_mode capacity header args))
        ≡ map value_of args
  unfolding deserialize serialize
  deserialize-serialize left_to_right ref_mode capacity header args sixteen carried order room =
      in_order order
      ∙ ap (λ base. read_args memory ref_mode (map type_of args) base 0)
          (ap (drop header_size) (serialized ref_mode capacity header args room)
            ∙ sym (drop-eq_of_append header_size header (write_args ref_mode args) sixteen refl))
      ∙ read_args-written ref_mode [] args carried
    where
      base : List ℕ
      base = drop header_size (serialize ref_mode capacity header args)

      in_order :
          (length args ≤ 4) ⊎ (left_to_right ≡ true)
          → deserialize memory left_to_right ref_mode (map type_of args) base
            ≡ read_args memory ref_mode (map type_of args) base 0
      in_order (inl few) =
          rw (le→leb (length (map type_of args)) 4 (omega (arith, few, length-map type_of args)))
            refl
      in_order (inr left) = rw left (ground arith)
