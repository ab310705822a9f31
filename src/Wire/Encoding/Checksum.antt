-- ===== src/Wire/Encoding/Checksum.antt =====
-- The frame checksum of crates/wayray-protocol/src/encoding.rs.
use wayray.Base.{ℕ, zero, suc, ◌+◌, ◌*◌, ◌≤◌, ◌<◌, ◌≡◌, refl, arith, Option-cases, inl, inr}
use wayray.Wire.Codec.{Bytes}
use wayray.Wire.Encoding.{slice, mix_rows, mix_line, checksum}

-- From a row on, two buffers show the same pixels.
abbrev pub SameRows : Bytes → ℕ → Bytes → ℕ → ℕ → ℕ → ℕ → Type 0
SameRows a stride b stride' row_bytes rows row =
    (i : ℕ)
    → row ≤ i
    → i < row + rows
    → slice a (i * stride) row_bytes ≡ slice b (i * stride') row_bytes

mix_rows_same :
    (a b : Bytes) (stride stride' row_bytes rows row h : ℕ)
    → SameRows a stride b stride' row_bytes rows row
    → mix_rows a stride row_bytes rows row h ≡ mix_rows b stride' row_bytes rows row h
unfolding mix_rows
mix_rows_same a b stride stride' row_bytes zero row h same = refl
mix_rows_same a b stride stride' row_bytes (suc rows) row h same =
    elim (Option-cases (slice b (row * stride') row_bytes)) [
      | inl e ↦ ground (arith, same row (omega arith) (omega arith))
      | inr (line, e) ↦ ground (
        arith,
        same row (omega arith) (omega arith),
        mix_rows_same a b stride stride' row_bytes rows (row + 1) (mix_line h line)
            (λ i p q. same i (omega arith) (omega arith)),
      )
    ]

-- Two framebuffers with the same visible bytes in every row have the same checksum, whatever their
-- strides and the padding behind the rows.
pub checksum_visible :
    (a b : Bytes) (stride stride' row_bytes height : ℕ)
    → ((i : ℕ) → i < height → slice a (i * stride) row_bytes ≡ slice b (i * stride') row_bytes)
    → checksum a stride row_bytes height ≡ checksum b stride' row_bytes height
unfolding checksum
checksum_visible a b stride stride' row_bytes height same =
    rw (mix_rows_same a b stride stride' row_bytes height 0 _ (λ i p q. same i (omega arith)))
