-- ===== src/WorkPool/Rand.antt =====
-- `ThreadPool::Rand` of thread_pool/thread_pool.cpp, with `RAND_MAX` of 2 ^ 31 - 1. Its arithmetic is in
-- doubles, which is exact here: the product has fewer than 53 bits for a range of at most 2 ^ 22 numbers.
use cpp_done.Prelude.{
  ℕ, ◌+◌, ◌-◌, ◌*◌, ◌/◌, ◌%◌, ◌^◌, ◌≤◌, ◌<◌, ◌≡◌, arith, ◌==◌, ltb, if◌then◌else◌,
}

-- an `int` as a `std::size_t`
abbrev to_size : ℕ → ℕ
to_size v = if ltb v (2 ^ 31) then v else v + (2 ^ 64 - 2 ^ 32)

-- the number, and `s_seed` after the call; `now` is what `time` returns and `rand_num` what `rand` does
unfoldable pub rand : ℕ → ℕ → ℕ → ℕ → ℕ → ℕ × ℕ
rand now rand_num min max s_seed =
    let seed = if s_seed == 0 then now % 2 ^ 32 else s_seed in
    (to_size ((min + (max - min + 1) * rand_num / 2 ^ 31) % 2 ^ 32), seed)

mul_bound : (n r c : ℕ) → r ≤ c → n * r ≤ n * c
mul_bound n r c h = grind arith

scaled_lt : (n r : ℕ) → 0 < n → r < 2 ^ 31 → n * r / 2 ^ 31 < n
scaled_lt n r h l = omega (arith, mul_bound n r 2147483647 (omega arith))

div_bounds : (n y : ℕ) → 0 < n → (n * (y / n) ≤ y) × (y < n * (y / n) + n)
div_bounds n y h = grind arith

cancel_lt : (n x p : ℕ) → n * x < n * p → x < p
cancel_lt n x p h = grind arith

-- the least number that is scaled to `k`
scaled_from : (n k : ℕ) → k < n → n ≤ 2 ^ 22 → (x : ℕ) × (x < 2 ^ 31) × (n * x / 2 ^ 31 ≡ k)
scaled_from n k h l =
    let x = (k * 2 ^ 31 + (n - 1)) / n in
    let (below, above) = div_bounds n (k * 2 ^ 31 + (n - 1)) (omega arith) in
    (x, cancel_lt n x (2 ^ 31) (omega (arith, below)), omega (arith, below, above))

-- For a range below 2 ^ 22, and every number that rand returns, Rand returns a number within the
-- range, whatever the seed, and every number of the range is returned for some number of rand.
pub rand_bounds :
    (now rand_num min max s_seed : ℕ)
    → rand_num < 2 ^ 31
    → min ≤ max
    → max < 2 ^ 22
    → (min ≤ (rand now rand_num min max s_seed).0)
      × ((rand now rand_num min max s_seed).0 ≤ max)
      × ((id : ℕ)
          → min ≤ id
          → id ≤ max
          → (r : ℕ) × (r < 2 ^ 31) × ((rand now r min max s_seed).0 ≡ id))
unfolding rand
rand_bounds now rand_num min max s_seed h k l =
    let low = scaled_lt (max - min + 1) rand_num (omega arith) h in
    (
      ground (arith, low),
      ground (arith, low),
      λ id a b.
          let (r, small, hit) =
            scaled_from (max - min + 1) (id - min) (omega arith) (omega arith) in
          (r, small, ground (arith, hit)),
    )
