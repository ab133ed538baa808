-- ===== src/Md5/Endless.antt =====
-- `update` counts the bytes of its input in 32 bits.
use sever_code.Prelude.{
  ℕ, zero, suc, ◌+◌, ◌-◌, ◌%◌, ◌^◌, ◌<◌, ◌≤◌, ◌≡◌, refl, arith, true, Bytes, length, take, ltb, leb,
  length-take, fault, no_end,
}
use sever_code.Md5.{Md5, index_of, blocks_fuel, update_fuel}
use sever_code.Md5.Transform.{Registers}
use sever_code.Md5.Copied.{transform_at-ok, copy_at-copied}

blocks_fuel-no_end :
    (fuel : ℕ) (input : Bytes) (i : ℕ) (r : Registers)
    → i < 2 ^ 32
    → 2 ^ 32 + 63 ≤ length input
    → blocks_fuel fuel input i r ≡ fault no_end
unfolding blocks_fuel
blocks_fuel-no_end zero input i r low long = refl
blocks_fuel-no_end (suc fuel) input i r low long =
    let more : ltb ((i + 63) % 2 ^ 32) (length input) ≡ true = ground arith in
    rw (more, blocks_fuel)
      (rw (transform_at-ok input i r (omega arith))
        (blocks_fuel-no_end fuel input ((i + 64) % 2 ^ 32) _ (omega arith) long))

index_of_bound : (m : Md5) → index_of m < 64
unfolding index_of
index_of_bound m = omega arith

-- An input of 2^32 + 63 bytes or more keeps `update` in its loop, whatever the fuel.
pub update_fuel-no_end :
    (fuel : ℕ) (input : Bytes) (m : Md5)
    → 2 ^ 32 + 63 ≤ length input
    → update_fuel fuel input m ≡ fault no_end
unfolding update_fuel
update_fuel-no_end fuel input m long =
    let index = index_of m in
    let low : index < 64 = index_of_bound m in
    let whole : leb (64 - index) (length input) ≡ true = ground arith in
    let fits : index + length (take (64 - index) input) ≤ 64 =
      omega (arith, length-take {0} (64 - index) input) in
    rw whole (
      rw (copy_at-copied index (take (64 - index) input) m.buffer fits)
        (rw (blocks_fuel-no_end fuel input (64 - index) _ (omega arith) long) refl))
