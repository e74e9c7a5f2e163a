-- ===== src/Base/Words.antt =====
-- Go's 64-bit numbers. An `int` and a `uint64` are both the bit pattern, a number below 2 ^ 64, so
-- that a conversion between them changes nothing; a signed comparison is one of biased patterns.
use Prim.Native.Nat.{ℕ, ◌+◌, ◌-◌, ◌%◌, ◌^◌, ◌<◌}
use mathlib.Core.Path.{◌≡◌}
use mathlib.Core.Bool.{Bool, false}
use native.Mathlib.Omega.{arith}
use banyan.Base.Tests.{ltb, leb}

-- `int` and `uint64`.
abbrev pub Word : Type 0
Word = ℕ

abbrev pub word_mod : ℕ
word_mod = 2 ^ 64

-- `-1` as an `int`.
abbrev pub minus_one : Word
minus_one = 2 ^ 64 - 1

unfoldable pub add : Word → Word → Word
add a b = (a + b) % word_mod

unfoldable pub sub : Word → Word → Word
sub a b = (a + word_mod - b) % word_mod

-- Monotone from the signed order to the order of the numbers.
unfoldable pub biased : Word → ℕ
biased a = (a + 2 ^ 63) % word_mod

-- `a < b` and `a <= b` on `int`.
abbrev pub slt : Word → Word → Bool
slt a b = ltb (biased a) (biased b)

abbrev pub sle : Word → Word → Bool
sle a b = leb (biased a) (biased b)

-- On patterns below 2 ^ 63, which stand for themselves, the signed order is the plain one.
pub slt_small : (a b : Word) → a < 2 ^ 63 → b < 2 ^ 63 → (slt a b ≡ ltb a b)
unfolding biased
slt_small a b h k = ground arith

-- A number that is not negative.
pub slt_zero : (n : Word) → n < 2 ^ 63 → slt n 0 ≡ false
unfolding biased
slt_zero n h = ground arith
