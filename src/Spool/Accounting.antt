-- ===== src/Spool/Accounting.antt =====
-- What one step of a handle takes from the budgets, and gives back.
pub mod System
pub mod Total
use ferroada.Prelude.{
  ℕ, ◌+◌, ◌≡◌, Bool, false, ◌≤◌, true, ◌<◌, List, length, arith, ◌∷◌, ap, suc, [],
}
use ferroada.Spool.Files.{FileSystem, Storage, memory, file}
use ferroada.Spool.Budget.Laws.{reserve_lem, granted, acquire_lem, release_file_lem}
use ferroada.Spool.{
  push, SpoolHandle, SpoolRuntime, abandon, spill_to_file, open_file, fill, store, push_fitting,
  inspect_bytes, next_replay_chunk,
}
use ferroada.Spool.Budget.{acquire, usize_mod, reserve}

abbrev pub is_file : {File : Type 0} → Storage File → Bool
is_file (memory buf) = false
is_file (file f copy) = true

module _ (fs : FileSystem) where
  open fs use {File, create, write_all}

  abbrev pub slot : SpoolHandle File → ℕ
  slot h = granted h.holds_file_slot 1

  -- A handle holds a slot exactly while its body is in a file, and has reserved what it stores.
  pub record IsSound (h : SpoolHandle File) : Type 0 where
    pub slotted : h.holds_file_slot ≡ is_file h.storage
    pub covered : h.len ≤ h.reserved

  -- The counters of a runtime are within their maxima, which are 64-bit numbers.
  pub record IsWithin (rt : SpoolRuntime) : Type 0 where
    pub bytes : rt.bytes.current ≤ rt.bytes.max
    pub bytes_size : rt.bytes.max < usize_mod
    pub files : rt.files.current ≤ rt.files.max
    pub files_size : rt.files.max < usize_mod

  -- A step of one handle: what it took is counted, what it gave back is not.
  pub record Accounts (h h' : SpoolHandle File) (rt rt' : SpoolRuntime) : Type 0 where
    pub bytes : rt'.bytes.current + h.reserved ≡ rt.bytes.current + h'.reserved
    pub files : rt'.files.current + slot h ≡ rt.files.current + slot h'
    pub bytes_max : rt'.bytes.max ≡ rt.bytes.max
    pub files_max : rt'.files.max ≡ rt.files.max
    pub within : IsWithin rt'
    pub sound : IsSound h'

  spill-Accounts :
      (path : ℕ) (extra : List ℕ) (h : SpoolHandle File) (rt : SpoolRuntime)
      → IsWithin rt
      → is_file h.storage ≡ false
      → h.holds_file_slot ≡ false
      → h.len + length extra ≤ h.reserved
      → Accounts h (spill_to_file fs path extra h rt).1 rt (spill_to_file fs path extra h rt).2
  unfolding spill_to_file open_file fill abandon
  spill-Accounts path extra h rt w m free room =
      ground (arith, acquire_lem rt.files, release_file_lem (acquire rt.files).0)

  store-Accounts :
      (s : Storage File) (path : ℕ) (chunk : List ℕ) (next : ℕ) (h : SpoolHandle File)
      (rt : SpoolRuntime)
      → IsWithin rt
      → h.storage ≡ s
      → h.holds_file_slot ≡ is_file s
      → h.len + length chunk ≤ h.reserved
      → next ≡ h.len + length chunk
      → Accounts h (store fs s path chunk next h rt).1 rt (store fs s path chunk next h rt).2
  unfolding store
  store-Accounts (memory buf) path chunk next h rt w same free room n =
      ground (arith, ap is_file same, spill-Accounts path chunk h rt w (ap is_file same) free room)
  store-Accounts (file f copy) path chunk next h rt w same free room n =
      ground (arith, ap is_file same)

  push_fitting-Accounts :
      (path : ℕ) (chunk : List ℕ) (next : ℕ) (h : SpoolHandle File) (rt : SpoolRuntime)
      → IsWithin rt
      → IsSound h
      → next ≡ h.len + length chunk
      → Accounts h
          (push_fitting fs path chunk next h rt).1
          rt
          (push_fitting fs path chunk next h rt).2
  unfolding push_fitting
  push_fitting-Accounts path chunk next h rt w s n = ground (
    arith,
    reserve_lem rt.bytes (length chunk),
    store-Accounts h.storage path chunk next (record h { reserved = h.reserved + length chunk })
        (record rt { bytes = (reserve rt.bytes (length chunk)).0 }),
  )

  pub push-Accounts :
      (path : ℕ) (chunk : List ℕ) (h : SpoolHandle File) (rt : SpoolRuntime)
      → IsWithin rt
      → IsSound h
      → Accounts h (push fs path chunk h rt).1 rt (push fs path chunk h rt).2
  unfolding push
  push-Accounts path [] h rt w s = ground arith
  push-Accounts path (b ∷ chunk) h rt w s =
      ground (arith, push_fitting-Accounts path (b ∷ chunk) (h.len + suc (length chunk)) h rt)

  -- What the methods that only read leave alone.
  pub record KeepsShare (h h' : SpoolHandle File) : Type 0 where
    pub reserved : h'.reserved ≡ h.reserved
    pub len : h'.len ≡ h.len
    pub slotted : h'.holds_file_slot ≡ h.holds_file_slot
    pub storage : is_file h'.storage ≡ is_file h.storage

  pub inspect-KeepsShare : (h : SpoolHandle File) → KeepsShare h (inspect_bytes fs h).1
  unfolding inspect_bytes
  inspect-KeepsShare h = ground arith

  pub replay-KeepsShare : (h : SpoolHandle File) → KeepsShare h (next_replay_chunk fs h).1
  unfolding next_replay_chunk
  replay-KeepsShare h = ground arith
