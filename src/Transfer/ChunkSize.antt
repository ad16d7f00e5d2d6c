-- ===== src/Transfer/ChunkSize.antt =====
-- client/src/services/transfer/chunkSize.ts, and the chunk count that SenderSession.start derives
-- from it. Sizes are far below 2 ^ 53, so the division is exact.
pub mod Ladder
use file_share_app.Base.{
  ℕ, ◌+◌, ◌-◌, ◌*◌, ◌/◌, min, Bool, true, false, ◌||◌, List, [], ◌∷◌, Option, none, some, ltb, leb,
  eqb, if◌then◌else◌,
}
use file_share_app.Shared.Constants.{chunk_size_ladder}

abbrev includes : List ℕ → ℕ → Bool
includes [] n = false
includes (x ∷ xs) n = eqb x n || includes xs n

-- The size by the file's size alone.
size_for : ℕ → ℕ
size_for file_size =
    if ltb file_size (8 * 1024 * 1024)
    then 64 * 1024
    else if ltb file_size (128 * 1024 * 1024)
    then 128 * 1024
    else if ltb file_size (1024 * 1024 * 1024)
    then 256 * 1024
    else if ltb file_size (4 * 1024 * 1024 * 1024)
    then 512 * 1024
    else 1024 * 1024

-- `navigator.deviceMemory ?? 4`, which browsers give as a multiple of a quarter: in quarters.
abbrev memory_or_default : Option ℕ → ℕ
memory_or_default none = 16
memory_or_default (some quarters) = quarters

-- Low-memory devices cap out at 256 KB.
adaptive : Option ℕ → ℕ → ℕ
unfolding size_for
adaptive memory file_size =
    if leb (memory_or_default memory) 8
    then min (size_for file_size) (256 * 1024)
    else size_for file_size

-- `userPreference && CHUNK_SIZE_LADDER.includes(userPreference)`; 0 is no rung.
pub select_chunk_size : Option ℕ → ℕ → Option ℕ → ℕ
unfolding adaptive
select_chunk_size memory file_size none = adaptive memory file_size
select_chunk_size memory file_size (some preference) =
    if includes chunk_size_ladder preference then preference else adaptive memory file_size

-- `Math.ceil(size / chunkSize) || 1`
unfoldable pub total_chunks : ℕ → ℕ → ℕ
total_chunks size chunk_size =
    let count = (size + chunk_size - 1) / chunk_size in if eqb count 0 then 1 else count
