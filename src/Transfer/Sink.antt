-- ===== src/Transfer/Sink.antt =====
-- client/src/services/storage/fileWriter.ts: where a receiver writes its chunks. `ChunkSink` is the
-- interface that ChunkReceiver is written against; its two implementations stand below.
pub mod FileSystem
pub mod IndexedDb
use file_share_app.Base.{ℕ, suc, ◌≡◌, List, [], ◌++◌, length, Option, some}

-- `none` is a rejected promise. `contents` is the file that `finalize` leaves on disk or in the
-- blob. `Below i` says that every chunk so far has an index below `i`.
pub record ChunkSink : Type 1 where
  pub State : Type 0
  pub write : State → ℕ → ℕ → List ℕ → Option State
  pub contents : State → List ℕ
  pub Below : ℕ → State → Type 0
  -- Chunks written in ascending order, each where the contents end, are appended: this is a sink
  -- that rejects none of these writes.
  pub write-append :
      (s : State) (i : ℕ) (bytes : List ℕ)
      → Below i s
      → (t : State) × (write s i (length (contents s)) bytes ≡ some t)
        × (contents t ≡ contents s ++ bytes)
        × Below (suc i) t
