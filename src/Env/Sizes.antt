-- ===== src/Env/Sizes.antt =====
-- The derived sizes: products of 32-bit numbers, and the way of the buffer size through `long`.
use lsm_workload_aware_compa.Prelude.{ℕ, ◌*◌, ◌%◌, ◌<◌, ◌≤◌, ◌^◌, ◌≡◌, ◌∙◌, arith, lt→ltb, le→ltb}
use native.Mathlib.Nat.{mod-eq_of_lt, le-mul_of_pos_right}
use native.Mathlib.Decide.{dec_lt}
use lsm_workload_aware_compa.Prelude.Int.{long_of_bits, to_unsigned}
use lsm_workload_aware_compa.Env.{
  DbEnv, get_block_size, get_buffer_size, get_target_file_size_base, get_max_bytes_for_level_base,
}

-- The steps of the product, with the wrap at each.
product_steps :
    (p b e : ℕ)
    → 0 < p
    → 0 < e
    → p * b * e < 2 ^ 32
    → (p * b % 2 ^ 32 * e % 2 ^ 32 ≡ p * b * e) × (p * b * e ≡ p * (b * e % 2 ^ 32))
product_steps p b e hp he fits =
    let left : p * b ≤ p * b * e = le-mul_of_pos_right (p * b) he in
    let group : p * b * e ≡ p * (b * e) = grind arith in
    let flip : p * (b * e) ≡ b * e * p = grind arith in
    let right : b * e ≤ p * (b * e) = rw flip (le-mul_of_pos_right (b * e) hp) in
    let pb : p * b % 2 ^ 32 ≡ p * b = mod-eq_of_lt (omega arith) in
    let be : b * e % 2 ^ 32 ≡ b * e = mod-eq_of_lt (omega arith) in
    (rw pb (mod-eq_of_lt fits), rw be group)

-- Without a buffer size of its own, the buffer is as large as its pages, entries and their size make it,
-- as long as the product fits 32 bits; a page is as large as its entries then.
get_buffer_size-product :
    (e : DbEnv)
    → e.buffer_size ≡ 0
    → 0 < e.buffer_size_in_pages
    → 0 < e.entry_size
    → e.buffer_size_in_pages * e.entries_per_page * e.entry_size < 2 ^ 32
    → (get_buffer_size e ≡ e.buffer_size_in_pages * e.entries_per_page * e.entry_size)
      × (get_buffer_size e ≡ e.buffer_size_in_pages * get_block_size e)
unfolding get_buffer_size get_block_size
get_buffer_size-product e unset pages entry fits =
    let (wrapped, by_page) =
      product_steps e.buffer_size_in_pages e.entries_per_page e.entry_size pages entry fits in
    rw unset (wrapped, wrapped ∙ by_page)

through_long : (n : ℕ) → n < 2 ^ 64 → to_unsigned 64 (long_of_bits n) ≡ n
through_long n fits = elim (dec_lt n (2 ^ 63)) [
  | yes small ↦ rw (lt→ltb n (2 ^ 63) small) (omega arith)
  | no large ↦ rw (le→ltb n (2 ^ 63) (omega arith)) (omega arith)
]

get_buffer_size-bounded : (e : DbEnv) → e.buffer_size < 2 ^ 64 → get_buffer_size e < 2 ^ 64
unfolding get_buffer_size
get_buffer_size-bounded e fits = ground arith

-- The three sizes that RocksDB is given are the buffer size, whatever its 64 bits are: the way through
-- `long` loses nothing.
pub get_max_bytes_for_level_base-same :
    (e : DbEnv)
    → e.buffer_size < 2 ^ 64
    → (to_unsigned 64 (get_target_file_size_base e) ≡ get_buffer_size e)
      × (get_max_bytes_for_level_base e ≡ get_buffer_size e)
unfolding get_target_file_size_base get_max_bytes_for_level_base
get_max_bytes_for_level_base-same e fits =
    let bounded = get_buffer_size-bounded e fits in (through_long _ bounded, through_long _ bounded)
