-- ===== src/Transfer/ChunkSize/Ladder.antt =====
-- The chosen chunk size, and that the chunks cover the file.
use native.Mathlib.Nat.{div-add-mod, mod-lt}
use file_share_app.Base.{ℕ, ◌+◌, ◌-◌, ◌*◌, ◌≤◌, ◌<◌, ◌≡◌, Option, none, some, arith, ◌⊎◌}
use file_share_app.Transfer.ChunkSize.{select_chunk_size, total_chunks}

-- One of the five rungs.
abbrev pub IsRung : ℕ → Type 0
IsRung n =
    (n ≡ 64 * 1024)
    ⊎ ((n ≡ 128 * 1024) ⊎ ((n ≡ 256 * 1024) ⊎ ((n ≡ 512 * 1024) ⊎ (n ≡ 1024 * 1024))))

-- Whatever the device, the file and the preference, the chosen size is a rung of the ladder.
pub select_chunk_size-IsRung :
    (memory : Option ℕ) (file_size : ℕ) (preference : Option ℕ)
    → IsRung (select_chunk_size memory file_size preference)
unfolding select_chunk_size
select_chunk_size-IsRung memory file_size none = ground arith
select_chunk_size-IsRung memory file_size (some p) = ground arith

-- Without a preference a larger file never gets smaller chunks.
pub select_chunk_size_mono :
    (memory : Option ℕ) (a b : ℕ)
    → a ≤ b
    → select_chunk_size memory a none ≤ select_chunk_size memory b none
unfolding select_chunk_size
select_chunk_size_mono memory a b h = ground arith

-- For a positive chunk size, the number of chunks is positive and that many chunks cover the file.
pub total_chunks_covers :
    (size chunk_size : ℕ)
    → 0 < chunk_size
    → (0 < total_chunks size chunk_size) × (size ≤ total_chunks size chunk_size * chunk_size)
unfolding total_chunks
total_chunks_covers size chunk_size h =
    let whole = div-add-mod (size + chunk_size - 1) chunk_size in
    let part = mod-lt (size + chunk_size - 1) {m = chunk_size} h in
    (ground arith, ground (arith, whole, part))

-- For a positive chunk size, no smaller positive number of chunks covers the file.
pub total_chunks_least :
    (size chunk_size n : ℕ)
    → 0 < chunk_size
    → 0 < n
    → size ≤ n * chunk_size
    → total_chunks size chunk_size ≤ n
unfolding total_chunks
total_chunks_least size chunk_size n h positive fits =
    let whole = div-add-mod (size + chunk_size - 1) chunk_size in
    let part = mod-lt (size + chunk_size - 1) {m = chunk_size} h in grind (arith, whole, part)
