-- ===== src/Prelude/BigEndian.antt =====
-- Unsigned integers as big-endian bytes (`encoding/binary.BigEndian`).
use Prim.Native.Nat.{ℕ, zero, suc, ◌+◌, ◌*◌, ◌/◌, ◌%◌, ◌^◌, ◌<◌}
use mathlib.Core.Path.{◌≡◌}
use mathlib.Core.List.{[], ◌∷◌}
use native.Mathlib.Omega.{arith}
use bucketvcs.Prelude.Text.{Bytes}

-- The last `n` digits of `v` to the base 256, the highest first.
abbrev pub be : ℕ → ℕ → Bytes
be zero v = []
be (suc n) v = (v / 256 ^ n) % 256 ∷ be n v

abbrev pub from_be : ℕ → Bytes → ℕ
from_be acc [] = acc
from_be acc (c ∷ s) = from_be (acc * 256 + c) s

pub from_be-be_16 : (v : ℕ) → v < 65536 → from_be 0 (be 2 v) ≡ v
from_be-be_16 v h = omega arith

pub from_be-be_32 : (v : ℕ) → v < 4294967296 → from_be 0 (be 4 v) ≡ v
from_be-be_32 v h = omega arith

pub from_be-be_64 : (v : ℕ) → v < 18446744073709551616 → from_be 0 (be 8 v) ≡ v
from_be-be_64 v h = omega arith
