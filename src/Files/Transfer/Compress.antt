-- ===== src/Files/Transfer/Compress.antt =====
-- `compress` of src/core/base/file_util.cc: `fread`, `gzwrite` and the removal of the source.
use femtolog.Prelude.{
  ℕ, zero, suc, ◌+◌, ◌-◌, ◌≤◌, ◌<◌, List, [], ◌++◌, Option, none, some, Bool, true, false, ◌&&◌,
  ◌≡◌, refl, sym, ap, ◌∙◌, subst, ◌⊎◌, inl, inr, length, take, drop, take-add, ◌==◌, if◌then◌else◌,
  arith, Bool-cases,
}

abbrev pub buf_size : ℕ
buf_size = 8192

-- The C library on the source: the bytes that `fread` gets at an offset, and what `gzwrite` returns for
-- so many bytes from there.
pub record Gzip (file : List ℕ) : Type 0 where
  pub fread : ℕ → ℕ
  pub gzwrite : ℕ → ℕ → ℕ
  pub at_most : (offset : ℕ) → fread offset ≤ buf_size
  pub in_file : (offset : ℕ) → fread offset ≤ length file - offset

-- The result, the bytes that went into the compressed file, and whether the source was given to
-- `std::remove`, whose answer the code does not look at.
pub record Outcome : Type 0 where
  pub returned : Bool
  pub compressed : List ℕ
  pub removed : Bool

-- `gzclose`, `fclose` and the end of the function.
abbrev pub finish : Bool → Bool → List ℕ → Outcome
finish remove_after_compress returned compressed = record {
  returned = returned;
  compressed = compressed;
  removed = returned && remove_after_compress;
}

-- What follows a call of `fread` that got so many bytes.
abbrev pub after_fread :
    (ℕ → List ℕ → Option Outcome)
    → (file : List ℕ) → Gzip file
    → Bool
    → ℕ
    → List ℕ
    → ℕ
    → Option Outcome
after_fread next file g remove offset compressed zero = some (finish remove true compressed)
after_fread next file g remove offset compressed (suc count) =
    if g.gzwrite offset (suc count) == 0
    then some (finish remove false compressed)
    else next (offset + suc count) (compressed ++ take (suc count) (drop offset file))

unfoldable pub compress_loop : ℕ → (file : List ℕ) → Gzip file → Bool → ℕ → List ℕ → Option Outcome
compress_loop zero file g remove offset compressed = none
compress_loop (suc fuel) file g remove offset compressed =
    after_fread (compress_loop fuel file g remove) file g remove offset compressed (g.fread offset)

-- `compress`, by whether `fopen` and `gzopen` succeed. Each round takes a byte at least.
unfoldable pub compress : Bool → Bool → (file : List ℕ) → Gzip file → Bool → Option Outcome
unfolding compress_loop
compress opens_src opens_dst file g remove =
    if opens_src && opens_dst
    then compress_loop (suc (length file)) file g remove 0 []
    else some (finish remove false [])

-- The loop stopped at an offset: there `fread` got nothing, and the call returned true, or `gzwrite`
-- took nothing, and it returned false. What stands before the offset went into the compressed file.
abbrev pub Compressed : (file : List ℕ) → Gzip file → Bool → Option Outcome → Type 0
Compressed file g remove none = ⊥
Compressed file g remove (some o) =
    (offset : ℕ) × (offset ≤ length file)
    × (o.compressed ≡ take offset file)
    × (o.removed ≡ o.returned && remove)
    × (((o.returned ≡ true) × (g.fread offset ≡ 0))
        ⊎ ((o.returned ≡ false) × (g.gzwrite offset (g.fread offset) ≡ 0)))

module _ (file : List ℕ) (g : Gzip file) (remove : Bool) where
  compress_loop-Compressed :
      (fuel offset : ℕ)
      → length file < offset + fuel
      → offset ≤ length file
      → Compressed file g remove (compress_loop fuel file g remove offset (take offset file))
  unfolding compress_loop
  compress_loop-Compressed zero offset enough inside = absurd (omega arith)
  compress_loop-Compressed (suc fuel) offset enough inside =
      got (g.fread offset) refl
        (λ count. compress_loop-Compressed fuel (offset + suc count) (omega arith))
    where
      got :
          (count : ℕ)
          → g.fread offset ≡ count
          → ((n : ℕ)
              → offset + suc n ≤ length file
              → Compressed file g remove
                  (compress_loop fuel file g remove (offset + suc n) (take (offset + suc n) file)))
          → Compressed file g remove (
              after_fread
                (compress_loop fuel file g remove)
                file
                g
                remove
                offset
                (take offset file)
                (g.fread offset))
      got zero e ih =
          subst
            (λ (n : ℕ). Compressed file g remove (
              after_fread (compress_loop fuel file g remove) file g remove offset (take offset file)
                n))
            (sym e) (offset, inside, refl, refl, inl (refl, e))
      got (suc n) e ih =
          subst
            (λ (k : ℕ). Compressed file g remove (
              after_fread (compress_loop fuel file g remove) file g remove offset (take offset file)
                k))
            (sym e)
            (elim (Bool-cases (g.gzwrite offset (suc n) == 0)) [
              | inl full ↦
                  rw full (
                    offset,
                    inside,
                    refl,
                    refl,
                    inr (refl, ap (g.gzwrite offset) e ∙ (ground arith)),
                  )
              | inr taken ↦ rw taken (
                  subst
                    (λ front.
                      Compressed file g remove
                        (compress_loop fuel file g remove (offset + suc n) front))
                    (sym (take-add offset (suc n) file))
                    (ih n (omega (arith, e, g.in_file offset))))
            ])

  -- `compress` with both files open ends. What it compresses is a first part of the source, up to where
  -- `fread` got nothing, and then it returns true, or up to where `gzwrite` failed, and then it returns
  -- false. It calls `std::remove` on the source exactly when it is told to and returns true.
  pub compress-Compressed : Compressed file g remove (compress true true file g remove)
  unfolding compress
  compress-Compressed = compress_loop-Compressed (suc (length file)) 0 (omega arith) (omega arith)
