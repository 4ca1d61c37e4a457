-- ===== src/Word.antt =====
-- Machine words of the source: `std::size_t` and the fixed-width integers are native numbers with
-- their wrap-around written out.
mod Bits
mod Pow
pub use Bits.{bit_and-mask, bit_and_pred, bit_and-le, clear_odd, clear_even}
pub use Pow.*
use femtolog.Prelude.{ℕ, ◌+◌, ◌-◌, ◌%◌, ◌^◌, ◌≤◌, ◌<◌, ◌≡◌, arith}

abbrev pub u8 : ℕ → ℕ
u8 n = n % 2 ^ 8

abbrev pub u16 : ℕ → ℕ
u16 n = n % 2 ^ 16

abbrev pub u64 : ℕ → ℕ
u64 n = n % 2 ^ 64

-- `a + b` and `a - b` on `std::size_t`.
abbrev pub add_size : ℕ → ℕ → ℕ
add_size a b = (a + b) % 2 ^ 64

abbrev pub sub_size : ℕ → ℕ → ℕ
sub_size a b = (a + 2 ^ 64 - b) % 2 ^ 64
