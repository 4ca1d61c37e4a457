-- ===== src/Files/Lines/Positions.antt =====
-- The masks of 32 bytes at a time find the newlines that the scalar loop finds.
use femtolog.Prelude.{
  ℕ, zero, suc, ◌+◌, ◌-◌, ◌*◌, ◌/◌, ◌%◌, ◌^◌, ◌≤◌, ◌<◌, List, [], ◌∷◌, ◌++◌, ◌≡◌, refl, sym, ap,
  ap₂, ◌∙◌, inl, inr, Bool, true, false, bit_and, length, take, drop, leb, ◌==◌, if◌then◌else◌,
  arith, Bool-cases, length-take, length-drop, take-append-drop, drop-drop,
}
use femtolog.Word.{clear_odd, clear_even, bit_and-le, two_pow_suc, two_pow-le}
use femtolog.Files.Lines.{
  newline, cmpeq_epi8, movemask_epi8, ctz_from, ctz, mask_loop, scalar_loop, vector_loop,
  newline_positions,
}

-- With a set bit in reach, more fuel changes nothing.
ctz_fuel : (a b n : ℕ) → 0 < n → n < 2 ^ a → n < 2 ^ b → ctz_from a n ≡ ctz_from b n
unfolding ctz_from
ctz_fuel zero b n pos small small' = absurd (omega arith)
ctz_fuel (suc a) zero n pos small small' = absurd (omega arith)
ctz_fuel (suc a) (suc b) n pos small small' = elim (Bool-cases (n % 2 == 1)) [
  | inl odd ↦ rw odd refl
  | inr even ↦ rw even (
      ap suc (
        ctz_fuel a b (n / 2) (ground arith) (omega (arith, two_pow_suc a))
          (omega (arith, two_pow_suc b))))
]

ctz_double : (m : ℕ) → 0 < m → 2 * m < 2 ^ 32 → ctz (2 * m) ≡ suc (ctz m)
unfolding ctz
ctz_double m pos small =
    ap (λ b. if b then 0 else suc (ctz_from 31 (2 * m / 2))) even
    ∙ ap (λ (k : ℕ). suc (ctz_from 31 k)) (let half : 2 * m / 2 ≡ m = omega arith in half)
    ∙ ap suc (ctz_fuel 31 32 m pos (omega arith) (omega arith))
  where
    even : (2 * m % 2 == 1) ≡ false
    even = ground arith

ctz_odd : (m : ℕ) → ctz (suc (2 * m)) ≡ 0
unfolding ctz ctz_from
ctz_odd m = ap (λ b. if b then 0 else suc (ctz_from 31 (suc (2 * m) / 2))) odd
  where
    odd : (suc (2 * m) % 2 == 1) ≡ true
    odd = ground arith

mask_loop_zero : (fuel pos : ℕ) → mask_loop fuel 0 pos ≡ []
unfolding mask_loop
mask_loop_zero zero pos = refl
mask_loop_zero (suc fuel) pos = refl

mask_loop_step :
    (fuel mask pos : ℕ)
    → (mask == 0) ≡ false
    → mask_loop (suc fuel) mask pos
      ≡ (pos + ctz mask) ∷ mask_loop fuel (bit_and mask (mask - 1)) pos
unfolding mask_loop
mask_loop_step fuel mask pos e =
    ap
      (λ b. elim b [
        | true ↦ []
        | false ↦ (pos + ctz mask) ∷ mask_loop fuel (bit_and mask (mask - 1)) pos
      ])
      e

-- A mask with its lowest bit clear is the mask of the bytes from the next position on.
mask_loop_double :
    (fuel m pos : ℕ) → 2 * m < 2 ^ 32 → mask_loop fuel (2 * m) pos ≡ mask_loop fuel m (pos + 1)
unfolding mask_loop
mask_loop_double zero m pos small = refl
mask_loop_double (suc fuel) m pos small = elim (Bool-cases (m == 0)) [
  | inl z ↦
      let none_set : m ≡ 0 = ground arith in
      ap (λ (k : ℕ). mask_loop (suc fuel) (2 * k) pos) none_set
      ∙ sym (ap (λ (k : ℕ). mask_loop (suc fuel) k (pos + 1)) none_set)
  | inr nz ↦
      let positive : 0 < m = ground arith in
      mask_loop_step fuel (2 * m) pos (ground arith)
      ∙ ap₂ (λ (x : ℕ) xs. x ∷ xs)
          (let e : pos + ctz (2 * m) ≡ pos + 1 + ctz m =
              omega (arith, ctz_double m positive small) in
            e)
          (ap (λ (k : ℕ). mask_loop fuel k pos) (clear_even m positive)
            ∙ mask_loop_double fuel (bit_and m (m - 1)) pos (omega (arith, bit_and-le m (m - 1))))
      ∙ sym (mask_loop_step fuel m (pos + 1) nz)
]

mask : List ℕ → ℕ
mask chunk = movemask_epi8 (cmpeq_epi8 newline chunk)

mask-lt : (chunk : List ℕ) → mask chunk < 2 ^ length chunk
unfolding mask movemask_epi8 cmpeq_epi8
mask-lt [] = omega arith
mask-lt (x ∷ chunk) = elim (Bool-cases (x == newline)) [
  | inl here ↦ rw here (omega (arith, two_pow_suc (length chunk), mask-lt chunk))
  | inr other ↦ rw other (omega (arith, two_pow_suc (length chunk), mask-lt chunk))
]

mask_loop_lem :
    (fuel : ℕ) (chunk : List ℕ) (pos : ℕ)
    → length chunk ≤ fuel
    → length chunk ≤ 32
    → mask_loop fuel (mask chunk) pos ≡ scalar_loop pos chunk
unfolding mask movemask_epi8 cmpeq_epi8 scalar_loop
mask_loop_lem fuel [] pos enough short = mask_loop_zero fuel pos
mask_loop_lem zero (x ∷ chunk) pos enough short = absurd (omega arith)
mask_loop_lem (suc fuel) (x ∷ chunk) pos enough short = elim (Bool-cases (x == newline)) [
  | inl here ↦ rw here (
      ap (λ (k : ℕ). mask_loop (suc fuel) k pos)
        (let e : 255 / 128 + 2 * mask chunk ≡ suc (2 * mask chunk) = omega arith in e)
      ∙ mask_loop_step fuel (suc (2 * mask chunk)) pos (ground arith)
      ∙ ap₂ (λ (y : ℕ) ys. y ∷ ys)
          (let e : pos + ctz (suc (2 * mask chunk)) ≡ pos = omega (arith, ctz_odd (mask chunk)) in
            e)
          (ap (λ (k : ℕ). mask_loop fuel k pos) (clear_odd (mask chunk))
            ∙ mask_loop_double fuel (mask chunk) pos small
            ∙ mask_loop_lem fuel chunk (pos + 1) (omega arith) (omega arith)))
  | inr other ↦ rw other (
      ap (λ (k : ℕ). mask_loop (suc fuel) k pos)
        (let e : 0 / 128 + 2 * mask chunk ≡ 2 * mask chunk = omega arith in e)
      ∙ mask_loop_double (suc fuel) (mask chunk) pos small
      ∙ mask_loop_lem (suc fuel) chunk (pos + 1) (omega arith) (omega arith))
]
  where
    small : 2 * mask chunk < 2 ^ 32
    small = omega (
      arith,
      mask-lt chunk,
      two_pow-le {j = suc (length chunk)} {k = 32} (omega arith),
      two_pow_suc (length chunk),
    )

scalar_loop-append :
    (xs ys : List ℕ) (pos : ℕ)
    → scalar_loop pos (xs ++ ys) ≡ scalar_loop pos xs ++ scalar_loop (pos + length xs) ys
unfolding scalar_loop
scalar_loop-append [] ys pos = ap (λ (k : ℕ). scalar_loop k ys) (omega arith)
scalar_loop-append (x ∷ xs) ys pos =
    let shift : pos + 1 + length xs ≡ pos + suc (length xs) = omega arith in
    let rest =
      scalar_loop-append xs ys (pos + 1)
      ∙ ap (λ (k : ℕ). scalar_loop (pos + 1) xs ++ scalar_loop k ys) shift in
    elim (Bool-cases (x == newline)) [
      | inl here ↦ rw here (ap (λ zs. pos ∷ zs) rest)
      | inr other ↦ rw other rest
    ]

vector_loop_step :
    (fuel : ℕ) (content : List ℕ) (pos : ℕ) {b : Bool}
    → leb (pos + 32) (length content) ≡ b
    → vector_loop (suc fuel) content pos ≡ elim b [
      | false ↦ scalar_loop pos (drop pos content)
      | true ↦
          mask_loop 32 (mask (take 32 (drop pos content))) pos
          ++ vector_loop fuel content (pos + 32)
    ]
unfolding vector_loop mask
vector_loop_step fuel content pos e =
    ap
      (λ b. elim b [
        | false ↦ scalar_loop pos (drop pos content)
        | true ↦
            mask_loop 32 (mask (take 32 (drop pos content))) pos
            ++ vector_loop fuel content (pos + 32)
      ])
      e

vector_loop_lem :
    (fuel : ℕ) (content : List ℕ) (pos : ℕ)
    → length content < pos + fuel
    → pos ≤ length content
    → vector_loop fuel content pos ≡ scalar_loop pos (drop pos content)
vector_loop_lem zero content pos enough inside = absurd (omega arith)
vector_loop_lem (suc fuel) content pos enough inside =
    elim (Bool-cases (leb (pos + 32) (length content))) [
      | inr remaining ↦ vector_loop_step fuel content pos remaining
      | inl whole ↦
          let room : pos + 32 ≤ length content = ground arith in
          let chunk = take 32 (drop pos content) in
          let size : length chunk ≡ 32 =
            omega (arith, length-take 32 (drop pos content), length-drop pos content) in
          vector_loop_step fuel content pos whole
          ∙ ap₂ (λ xs ys. xs ++ ys) (mask_loop_lem 32 chunk pos (omega arith) (omega arith))
              (vector_loop_lem fuel content (pos + 32) (omega arith) room
                ∙ ap₂ (λ (k : ℕ) ys. scalar_loop k ys)
                    (let e : pos + 32 ≡ pos + length chunk = omega arith in e)
                    (sym (drop-drop pos 32 content)))
          ∙ sym (scalar_loop-append chunk (drop 32 (drop pos content)) pos)
          ∙ ap (scalar_loop pos) (take-append-drop 32 (drop pos content))
    ]

-- lem
pub newline_positions_lem : (content : List ℕ) → newline_positions content ≡ scalar_loop 0 content
unfolding newline_positions
newline_positions_lem content = elim (Bool-cases (leb 32 (length content))) [
  | inl long ↦
      rw long (vector_loop_lem (suc (length content)) content 0 (omega arith) (omega arith))
  | inr short ↦ rw short refl
]
