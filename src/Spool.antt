-- ===== src/Spool.antt =====
-- src/spool.rs: a request body held until it is inspected, in memory up to 256 KiB and in a file
-- above that, under budgets of bytes and files that all bodies share. A method returns the handle
-- and the runtime as it leaves them, beside its result. `path` is the name of a new spool file.
pub mod Budget
pub mod Files
pub mod Pushing
pub mod Refusals
pub mod Accounting
pub mod Inspection
pub mod Replay
mod Tests
use ferroada.Prelude.{
  ℕ, ◌+◌, ◌*◌, ◌-◌, ◌<◌, ◌≤◌, Bool, true, false, if◌then◌else◌, List, Result, [], err, min, not,
  ltb, length, ok, Option, none, some, ◌++◌, ◌∷◌, ◌==◌, leb,
}
use Files.{FileSystem, Storage, memory, file}
use Budget.{ByteBudget, FileBudget}

abbrev pub memory_ceiling : ℕ
memory_ceiling = 256 * 1024

abbrev pub default_max_bytes : ℕ
default_max_bytes = 512 * 1024 * 1024

abbrev pub default_max_files : ℕ
default_max_files = 256

abbrev pub replay_chunk : ℕ
replay_chunk = 64 * 1024

pub data SpoolError : Type 0 where
  overflow budget files not_configured io : SpoolError

unfoldable pub is_overflow : SpoolError → Bool
is_overflow overflow = true
is_overflow _ = false

unfoldable pub is_capacity : SpoolError → Bool
is_capacity overflow = false
is_capacity io = false
is_capacity _ = true

-- `dir` says whether a directory is configured.
pub record SpoolRuntime : Type 0 where
  pub dir : Bool
  pub bytes : ByteBudget
  pub files : FileBudget

pub off : SpoolRuntime
off = record {
  dir = false;
  bytes = Budget.new_bytes default_max_bytes;
  files = Budget.new_files default_max_files;
}

-- `max_bytes` and `max_files` are the environment's, or the defaults.
pub from_config : Bool → ℕ → ℕ → SpoolRuntime
unfolding off
from_config has_spool_routes max_bytes max_files =
    if has_spool_routes
    then record {
      dir = true;
      bytes = Budget.new_bytes max_bytes;
      files = Budget.new_files max_files;
    }
    else off

unfoldable pub is_enabled : SpoolRuntime → Bool
is_enabled runtime = runtime.dir

pub record SpoolHandle (File : Type 0) : Type 0 where
  pub storage : Storage File
  pub len : ℕ
  pub max : ℕ
  pub replay_at : ℕ
  pub replay_done : Bool
  pub reserved : ℕ
  pub holds_file_slot : Bool

-- `existing` of `spill_to_file`.
abbrev pub buffered : {File : Type 0} → Storage File → List ℕ
buffered (memory buf) = buf
buffered (file f inspect) = []

module _ (fs : FileSystem) where
  open fs use {File, create, write_all, seek_start, read_to_end, read}

  -- What a method that may fail returns.
  abbrev pub Outcome : Type 0 → Type 0
  Outcome A = Result SpoolError A × SpoolHandle File × SpoolRuntime

  unfoldable pub new : ℕ → SpoolHandle File
  new max = record {
    storage = memory [];
    len = 0;
    max = max;
    replay_at = 0;
    replay_done = false;
    reserved = 0;
    holds_file_slot = false;
  }

  -- The way out of `spill_to_file` when the file fails: the slot is given back.
  abandon : SpoolHandle File → SpoolRuntime → Outcome (Unit {0})
  abandon h rt = (
    err io,
    record h { holds_file_slot = false },
    record rt { files = Budget.release_file rt.files },
  )

  -- `existing`, then `extra`, into the new file.
  fill : SpoolHandle File → SpoolRuntime → File → List ℕ → List ℕ → Outcome (Unit {0})
  unfolding abandon
  fill h rt f existing extra =
      let (wrote, f₁) = write_all f existing in
      let (wrote_all, f₂) = write_all f₁ extra in
      if not wrote
      then abandon h rt
      else if not wrote_all
      then abandon h rt
      else (ok tt, record h { len = h.len + length extra; storage = file f₂ none }, rt)

  -- With the slot held.
  open_file : ℕ → List ℕ → SpoolHandle File → SpoolRuntime → Outcome (Unit {0})
  unfolding fill abandon
  open_file path extra h rt = elim (create path) [
    | none ↦ abandon h rt
    | some f ↦ fill h rt f (buffered h.storage) extra
  ]

  unfoldable pub spill_to_file : ℕ → List ℕ → SpoolHandle File → SpoolRuntime → Outcome (Unit {0})
  unfolding open_file
  spill_to_file path extra h rt =
      if not rt.dir
      then (err not_configured, h, rt)
      else (let (taken, granted) = Budget.acquire rt.files in
          if not granted
          then (err SpoolError.files, h, rt)
          else open_file path extra (record h { holds_file_slot = true })
              (record rt { files = taken }))

  -- The `match` on the storage, with the bytes reserved. `next` is the length after the chunk.
  store : Storage File → ℕ → List ℕ → ℕ → SpoolHandle File → SpoolRuntime → Outcome (Unit {0})
  unfolding spill_to_file
  store (memory buf) path chunk next h rt =
      if ltb memory_ceiling (length buf + length chunk)
      then spill_to_file path chunk h rt
      else (ok tt, record h { storage = memory (buf ++ chunk); len = next }, rt)
  store (file f inspect) path chunk next h rt =
      let (wrote, f₁) = write_all f chunk in
      if wrote
      then (ok tt, record h { storage = file f₁ none; len = next }, rt)
      else (err io, record h { storage = file f₁ inspect }, rt)

  -- A chunk that is not empty and fits the handle.
  push_fitting : ℕ → List ℕ → ℕ → SpoolHandle File → SpoolRuntime → Outcome (Unit {0})
  unfolding store
  push_fitting path chunk next h rt =
      let (bytes, granted) = Budget.reserve rt.bytes (length chunk) in
      if not granted
      then (err budget, h, rt)
      else store h.storage path chunk next (record h { reserved = h.reserved + length chunk })
          (record rt { bytes = bytes })

  unfoldable pub push : ℕ → List ℕ → SpoolHandle File → SpoolRuntime → Outcome (Unit {0})
  unfolding push_fitting
  push path [] h rt = (ok tt, h, rt)
  push path (b ∷ bs) h rt =
      elim (Budget.at_most h.max (Budget.checked_add h.len (length (b ∷ bs)))) [
        | none ↦ (err overflow, h, rt)
        | some next ↦ push_fitting path (b ∷ bs) next h rt
      ]

  fill_inspect : File → SpoolHandle File → Result SpoolError (List ℕ) × SpoolHandle File
  fill_inspect f h =
      let (sought, f₁) = seek_start f in
      let (found, f₂) = read_to_end f₁ in
      if not sought then (err io, record h { storage = file f₁ none }) else elim found [
        | none ↦ (err io, record h { storage = file f₂ none })
        | some buf ↦ (ok buf, record h { storage = file f₂ (some buf) })
      ]

  inspect_storage : Storage File → SpoolHandle File → Result SpoolError (List ℕ) × SpoolHandle File
  unfolding fill_inspect
  inspect_storage (memory buf) h = (ok buf, h)
  inspect_storage (file f (some buf)) h = (ok buf, h)
  inspect_storage (file f none) h = fill_inspect f h

  unfoldable pub inspect_bytes : SpoolHandle File → Result SpoolError (List ℕ) × SpoolHandle File
  unfolding inspect_storage
  inspect_bytes h = inspect_storage h.storage h

  -- The size of the buffer that a chunk is read into.
  abbrev pub chunk_size : SpoolHandle File → ℕ
  chunk_size h = min replay_chunk (Prim.Native.Nat.max (h.len - h.replay_at) 1)

  -- One read of at most a chunk, from the cursor of `f`.
  replay_read : File → SpoolHandle File → Result SpoolError (Option (List ℕ)) × SpoolHandle File
  replay_read f h =
      let (found, f₁) = read f (chunk_size h) in
      elim found [
        | none ↦ (err io, record h { storage = file f₁ none })
        | some [] ↦ (ok none, record h { storage = file f₁ none; replay_done = true })
        | some (b ∷ bs) ↦ (
          ok (some (b ∷ bs)),
          record h {
            storage = file f₁ none;
            replay_at = h.replay_at + length (b ∷ bs);
            replay_done = leb h.len (h.replay_at + length (b ∷ bs));
          },
        )
      ]

  replay_file : File → SpoolHandle File → Result SpoolError (Option (List ℕ)) × SpoolHandle File
  unfolding replay_read
  replay_file f h =
      let (sought, f₁) = seek_start f in
      if h.replay_at == 0
      then (if not sought then (err io, record h { storage = file f₁ none }) else replay_read f₁ h)
      else replay_read f h

  replay_storage :
      Storage File → SpoolHandle File → Result SpoolError (Option (List ℕ)) × SpoolHandle File
  unfolding replay_file
  replay_storage (memory []) h = (ok none, record h { replay_done = true })
  replay_storage (memory (b ∷ bs)) h = (ok (some (b ∷ bs)), record h { replay_done = true })
  replay_storage (file f inspect) h = replay_file f h

  unfoldable pub next_replay_chunk :
      SpoolHandle File → Result SpoolError (Option (List ℕ)) × SpoolHandle File
  unfolding replay_storage
  next_replay_chunk h = if h.replay_done then (ok none, h) else replay_storage h.storage h

  unfoldable pub replay_finished : SpoolHandle File → Bool
  replay_finished h = h.replay_done

  -- `drop`: what the handle holds is given back. The file is deleted, which is not modelled.
  unfoldable pub drop_handle : SpoolHandle File → SpoolRuntime → SpoolRuntime
  drop_handle h rt = record rt {
    bytes = Budget.release_bytes rt.bytes h.reserved;
    files = if h.holds_file_slot then Budget.release_file rt.files else rt.files;
  }
