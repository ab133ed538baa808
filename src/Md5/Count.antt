-- ===== src/Md5/Count.antt =====
-- The count of bits in two words, and the position in the buffer.
use sever_code.Prelude.{ℕ, ◌+◌, ◌*◌, ◌/◌, ◌%◌, ◌^◌, ◌<◌, ◌≡◌, arith}
use sever_code.Md5.{Md5, count_up, index_of}

-- Fewer than 2^32 bytes more: the words hold the new number of bits, modulo 2^64.
pub count_up-add :
    (m : Md5) (n k : ℕ)
    → k < 2 ^ 32
    → m.low ≡ n * 8 % 2 ^ 32
    → m.high ≡ n * 8 / 2 ^ 32 % 2 ^ 32
    → ((count_up k m).low ≡ (n + k) * 8 % 2 ^ 32)
      × ((count_up k m).high ≡ (n + k) * 8 / 2 ^ 32 % 2 ^ 32)
unfolding count_up
count_up-add m n k h low high = ground arith

pub index_of-mod : (m : Md5) (n : ℕ) → m.low ≡ n * 8 % 2 ^ 32 → index_of m ≡ n % 64
unfolding index_of
index_of-mod m n low = omega arith
