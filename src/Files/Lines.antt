-- ===== src/Files/Lines.antt =====
-- `read_lines_default` and `read_lines_with_avx2` of src/core/base/file_util.cc. Pointers into the
-- content are offsets from its first byte.
pub mod Positions
pub mod Equivalence
pub mod Cut
pub mod Reads
use femtolog.Prelude.{
  ℕ, zero, suc, ◌+◌, ◌-◌, ◌*◌, ◌/◌, ◌%◌, List, [], ◌∷◌, ◌++◌, map, Option, none, some, Bool, true,
  false, ◌&&◌, bit_and, length, get_or, take, drop, ltb, leb, ◌==◌, if◌then◌else◌,
}

abbrev pub newline : ℕ
newline = 10

abbrev pub carriage_return : ℕ
carriage_return = 13

-- `memchr(s, c, length s)`, as an offset.
unfoldable pub memchr : ℕ → List ℕ → Option ℕ
memchr c [] = none
memchr c (x ∷ s) =
    let later = memchr c s in
    if x == c then some 0 else elim later [ none ↦ none | some k ↦ some (suc k) ]

-- `current_pos` is at `current`; the line ends at `stop`, and the next one starts at `next`.
abbrev pub line_end : List ℕ → ℕ → Option ℕ → ℕ
line_end content current none = length content
line_end content current (some k) = current + k

abbrev pub next_pos : List ℕ → ℕ → Option ℕ → ℕ
next_pos content current none = length content
next_pos content current (some k) = current + k + 1

-- `line_length`, without the carriage return at `line_end[-1]`.
unfoldable pub line_length : List ℕ → ℕ → ℕ → ℕ
line_length content start stop =
    if ltb 0 (stop - start) && get_or content (stop - 1) 0 == carriage_return
    then stop - start - 1
    else stop - start

unfoldable pub line_at : List ℕ → ℕ → ℕ → List ℕ
unfolding line_length
line_at content start stop = take (line_length content start stop) (drop start content)

unfoldable pub default_loop : ℕ → List ℕ → ℕ → List (List ℕ)
unfolding memchr line_at
default_loop zero content current = []
default_loop (suc fuel) content current = elim (ltb current (length content)) [
  | false ↦ []
  | true ↦
      let next_newline : Option ℕ = memchr newline (drop current content) in
      line_at content current (line_end content current next_newline)
      ∷ default_loop fuel content (next_pos content current next_newline)
]

-- Each round takes a byte at least, so that a round for each byte is enough.
unfoldable pub read_lines_default : List ℕ → List (List ℕ)
unfolding default_loop
read_lines_default [] = []
read_lines_default (c ∷ content) = default_loop (suc (length content)) (c ∷ content) 0

-- The intrinsics: a byte of ones where the bytes are equal, and the top bits of 32 bytes.
unfoldable pub cmpeq_epi8 : ℕ → List ℕ → List ℕ
cmpeq_epi8 c chunk = map (λ x. if x == c then 0xff else 0) chunk

unfoldable pub movemask_epi8 : List ℕ → ℕ
movemask_epi8 [] = 0
movemask_epi8 (x ∷ chunk) = x / 128 + 2 * movemask_epi8 chunk

-- `__builtin_ctz`: the zeros below the lowest set bit of a 32-bit word.
unfoldable pub ctz_from : ℕ → ℕ → ℕ
ctz_from zero n = 0
ctz_from (suc fuel) n = let rest = ctz_from fuel (n / 2) in if n % 2 == 1 then 0 else suc rest

unfoldable pub ctz : ℕ → ℕ
unfolding ctz_from
ctz n = ctz_from 32 n

-- `while (mask)`: each round clears the lowest set bit.
unfoldable pub mask_loop : ℕ → ℕ → ℕ → List ℕ
unfolding ctz
mask_loop zero mask pos = []
mask_loop (suc fuel) mask pos = elim (mask == 0) [
  | true ↦ []
  | false ↦ (pos + ctz mask) ∷ mask_loop fuel (bit_and mask (mask - 1)) pos
]

-- The scalar loop, over the bytes from `pos` on.
unfoldable pub scalar_loop : ℕ → List ℕ → List ℕ
scalar_loop pos [] = []
scalar_loop pos (x ∷ rest) =
    let later = scalar_loop (pos + 1) rest in if x == newline then pos ∷ later else later

unfoldable pub vector_loop : ℕ → List ℕ → ℕ → List ℕ
unfolding cmpeq_epi8 movemask_epi8 mask_loop scalar_loop
vector_loop zero content pos = []
vector_loop (suc fuel) content pos = elim (leb (pos + 32) (length content)) [
  | false ↦ scalar_loop pos (drop pos content)
  | true ↦
      mask_loop 32 (movemask_epi8 (cmpeq_epi8 newline (take 32 (drop pos content)))) pos
      ++ vector_loop fuel content (pos + 32)
]

unfoldable pub newline_positions : List ℕ → List ℕ
unfolding vector_loop
newline_positions content =
    if leb 32 (length content)
    then vector_loop (suc (length content)) content 0
    else scalar_loop 0 content

-- `line_length` of the vector version, which tests `data[line_start + line_length - 1]`.
unfoldable pub vector_line_length : List ℕ → ℕ → ℕ → ℕ
vector_line_length content start stop =
    if ltb 0 (stop - start) && get_or content (start + (stop - start) - 1) 0 == carriage_return
    then stop - start - 1
    else stop - start

unfoldable pub vector_line : List ℕ → ℕ → ℕ → List ℕ
unfolding vector_line_length
vector_line content start stop = take (vector_line_length content start stop) (drop start content)

-- The loop over `newline_positions`, and the last line.
unfoldable pub lines_at : List ℕ → ℕ → List ℕ → List (List ℕ)
unfolding vector_line
lines_at content line_start [] =
    if ltb line_start (length content)
    then vector_line content line_start (length content) ∷ []
    else []
lines_at content line_start (newline_pos ∷ positions) =
    vector_line content line_start newline_pos ∷ lines_at content (newline_pos + 1) positions

unfoldable pub read_lines_with_avx2 : List ℕ → List (List ℕ)
unfolding newline_positions lines_at
read_lines_with_avx2 [] = []
read_lines_with_avx2 (c ∷ content) = lines_at (c ∷ content) 0 (newline_positions (c ∷ content))
