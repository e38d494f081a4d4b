-- ===== src/Host/ByteOrder.antt =====
-- Go's `binary.ByteOrder`, the interface of `binary.NativeEndian`: reads from the front of a byte
-- slice, and writes, of fixed-width unsigned numbers.
use topdisc_testbed.Base.{
  ℕ, ◌+◌, ◌*◌, ◌/◌, ◌%◌, ◌≡◌, List, [], ◌∷◌, ◌++◌, arith, refl, length, get_or,
}

pub record ByteOrder : Type 0 where
  pub uint16 : List ℕ → ℕ
  pub uint32 : List ℕ → ℕ
  pub put_uint16 : ℕ → List ℕ
  pub put_uint32 : ℕ → List ℕ
  pub length-put_uint16 : (n : ℕ) → length (put_uint16 n) ≡ 2
  pub length-put_uint32 : (n : ℕ) → length (put_uint32 n) ≡ 4
  pub uint16-put_uint16 : (n : ℕ) (b : List ℕ) → uint16 (put_uint16 n ++ b) ≡ n % 65536
  pub uint32-put_uint32 : (n : ℕ) (b : List ℕ) → uint32 (put_uint32 n ++ b) ≡ n % 4294967296

unfoldable pub little_endian : ByteOrder
little_endian = record {
  uint16 = λ b. get_or b 0 0 + 256 * get_or b 1 0;
  uint32 = λ b. get_or b 0 0 + 256 * get_or b 1 0 + 65536 * get_or b 2 0 + 16777216 * get_or b 3 0;
  put_uint16 = λ n. n % 256 ∷ n / 256 % 256 ∷ [];
  put_uint32 = λ n. n % 256 ∷ n / 256 % 256 ∷ n / 65536 % 256 ∷ n / 16777216 % 256 ∷ [];
  length-put_uint16 = λ n. refl;
  length-put_uint32 = λ n. refl;
  uint16-put_uint16 = λ n b. omega arith;
  uint32-put_uint32 = λ n b. omega arith;
}
