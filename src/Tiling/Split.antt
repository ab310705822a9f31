-- ===== src/Tiling/Split.antt =====
-- How `bsp_layout` of crates/wr-wm-tiling/src/main.rs splits a length between its two halves.
use wayray.Base.{ℕ, ◌+◌, ◌-◌, ◌*◌, ◌/◌, ◌≤◌, ◌<◌, ◌≡◌, arith}
use wayray.Base.Int.{ℤ, pos, negsuc, ◌+ℤ◌, ◌-ℤ◌, ◌*ℤ◌, ◌/ℤ◌, ◌≤ℤ◌}
use wayray.Tiling.{first_length, gap}
use native.Mathlib.Nat.{le-div_iff_mul-le, div-lt_iff_lt-mul}

-- `w` is 4 m + 4 s + d, for halves of m + 1 and s windows.
first_fits : (m s d : ℕ) → m + 1 ≤ s → (4 * m + 2) * (m + 1 + s) ≤ (4 * m + 4 * s + d) * (m + 1)
first_fits m s d h = grind arith

second_fits :
    (m s d : ℕ) → s ≤ m + 2 → (4 * m + 4 * s + d) * (m + 1) < (4 * m + 3 + d) * (m + 1 + s)
second_fits m s d h = grind arith

split_parts :
    (w c f m s d : ℕ)
    → w ≡ 4 * m + 4 * s + d
    → c ≡ m + 1 + s
    → f ≡ m + 1
    → m + 1 ≤ s
    → s ≤ m + 2
    → (4 * m + 2 ≤ w * f / c) × (w * f / c < 4 * m + 3 + d)
split_parts w c f m s d e g h low high = rw e (
    rw g (
      rw h (
        (le-div_iff_mul-le (omega arith)).1 (first_fits m s d low),
        (div-lt_iff_lt-mul (omega arith)).1 (second_fits m s d high),
      )))

-- Four pixels for each window, less four, are enough for every half again.
pub split_fits :
    (w c : ℕ)
    → 2 ≤ c
    → 4 * c ≤ w + 4
    → (4 * (c / 2) ≤ w * (c / 2) / c + 2) × (w * (c / 2) / c + 4 * (c - c / 2) ≤ w + 2)
split_fits w c p h =
    let (low, high) =
      split_parts w c (c / 2) (c / 2 - 1) (c - c / 2) (w + 4 - 4 * c) (omega arith) (omega arith)
        (omega arith) (omega arith) (omega arith) in
    (omega arith, omega arith)

-- An area of that length has room for `count` windows.
abbrev pub HasRoom : ℕ → ℤ → Type 0
HasRoom count length = pos (4 * count) ≤ℤ length +ℤ pos 4

pub first_length-HasRoom :
    (length : ℤ) (count : ℕ)
    → 2 ≤ count
    → HasRoom count length
    → let first = first_length length (count / 2) count in
      HasRoom (count / 2) first × HasRoom (count - count / 2) (length -ℤ first -ℤ gap)
unfolding first_length ◌+ℤ◌ ◌-ℤ◌ ◌*ℤ◌ ◌/ℤ◌
first_length-HasRoom (pos w) count p room = ground (arith, split_fits w count p (ground arith))
first_length-HasRoom (negsuc w) count p room = absurd (ground arith)
