-- ===== src/Spool/Files.antt =====
-- Where a spooled body lies, and the interface of the files it is written to.
--
-- `tokio::fs::File` is not part of the program. A file has contents and a cursor; an operation
-- may fail, and then says nothing of the file it leaves. What is assumed of a success is what the
-- documentation of `AsyncWriteExt`, `AsyncSeekExt` and `AsyncReadExt` says; a read may be short,
-- and reads nothing only at the end or into an empty buffer.
use ferroada.Prelude.{
  ℕ, ◌+◌, List, Option, Bool, ◌≡◌, some, [], true, length, ◌++◌, drop, max, take, ◌≤◌, ◌<◌,
}

pub record FileSystem : Type 1 where
  pub File : Type 0
  pub contents : File → List ℕ
  pub cursor : File → ℕ
  -- `create_new`, at a fresh path
  pub create : ℕ → Option File
  pub write_all : File → List ℕ → Bool × File
  pub seek_start : File → Bool × File
  pub read_to_end : File → Option (List ℕ) × File
  pub read : File → ℕ → Option (List ℕ) × File
  pub create_lem : (path : ℕ) (f : File) → create path ≡ some f → (contents f ≡ []) × (cursor f ≡ 0)
  pub write_all_lem :
      (f : File) (bytes : List ℕ)
      → (write_all f bytes).0 ≡ true
      → cursor f ≡ length (contents f)
      → (contents (write_all f bytes).1 ≡ contents f ++ bytes)
        × (cursor (write_all f bytes).1 ≡ length (contents f ++ bytes))
  pub seek_start_lem :
      (f : File)
      → (seek_start f).0 ≡ true
      → (contents (seek_start f).1 ≡ contents f) × (cursor (seek_start f).1 ≡ 0)
  pub read_to_end_lem :
      (f : File) (bytes : List ℕ)
      → (read_to_end f).0 ≡ some bytes
      → (bytes ≡ drop (cursor f) (contents f))
        × (contents (read_to_end f).1 ≡ contents f)
        × (cursor (read_to_end f).1 ≡ max (cursor f) (length (contents f)))
  pub read_lem :
      (f : File) (size : ℕ) (bytes : List ℕ)
      → (read f size).0 ≡ some bytes
      → (bytes ≡ take (length bytes) (drop (cursor f) (contents f)))
        × (length bytes ≤ size)
        × (bytes ≡ [] → 0 < size → length (contents f) ≤ cursor f)
        × (contents (read f size).1 ≡ contents f)
        × (cursor (read f size).1 ≡ cursor f + length bytes)

-- `path` of a file is needed to delete it only. `inspect` is the copy made for inspection.
pub data Storage (File : Type 0) : Type 0 where
  memory : List ℕ → Storage File
  file : File → Option (List ℕ) → Storage File
