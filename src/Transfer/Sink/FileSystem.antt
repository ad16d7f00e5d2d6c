-- ===== src/Transfer/Sink/FileSystem.antt =====
-- FileSystemChunkSink: each chunk goes to its byte offset in a file stream of the browser.
use file_share_app.Base.{ℕ, ◌≡◌, List, ◌++◌, length, Option, none, some}
use file_share_app.Transfer.Sink.{ChunkSink}

-- The browser's FileSystemWritableFileStream: `write({ type: "write", position, data })`, which may
-- fail in general, as may `close` and `abort`. A write at the end of the file extends it, which is
-- said here of a stream whose writes at the end are not rejected.
pub record FileStream : Type 1 where
  pub Stream : Type 0
  pub write_at : Stream → ℕ → List ℕ → Option Stream
  pub bytes : Stream → List ℕ
  pub close : Stream → Option Stream
  pub abort_stream : Stream → Option Stream
  pub write_at-end :
      (s : Stream) (chunk : List ℕ)
      → (t : Stream) × (write_at s (length (bytes s)) chunk ≡ some t) × (bytes t ≡ bytes s ++ chunk)

module _ (f : FileStream) where
  open f use {Stream, write_at, bytes, close, abort_stream, write_at-end}

  -- The chunk's index is not used.
  abbrev pub write : Stream → ℕ → ℕ → List ℕ → Option Stream
  write s chunk_index byte_offset chunk = write_at s byte_offset chunk

  abbrev closed : Option Stream → Option (Option (List ℕ) × Stream)
  closed none = none
  closed (some s) = some (none, s)

  -- No blob: the file is on the disk.
  unfoldable pub finalize : Stream → Option (Option (List ℕ) × Stream)
  finalize s = closed (close s)

  abbrev caught : Stream → Option Stream → Stream
  caught s none = s
  caught s (some t) = t

  -- A rejected `abort` is caught.
  unfoldable pub abort : Stream → Stream
  abort s = caught s (abort_stream s)

  pub write-append :
      (s : Stream) (i : ℕ) (chunk : List ℕ)
      → Unit {0}
      → (t : Stream) × (write s i (length (bytes s)) chunk ≡ some t)
        × (bytes t ≡ bytes s ++ chunk)
        × Unit {0}
  write-append s i chunk below = let (t, e, b) = write_at-end s chunk in (t, e, b, tt)

  abbrev pub file_system_sink : ChunkSink
  file_system_sink = record {
    State = Stream;
    write = write;
    contents = bytes;
    Below = λ i s. Unit;
    write-append = write-append;
  }
