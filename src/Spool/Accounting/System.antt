-- ===== src/Spool/Accounting/System.antt =====
-- All handles of the process over the shared runtime. Each step is one method of one handle.
use native.Mathlib.Nat.{le_of_eq}
use ferroada.Prelude.{
  ℕ, ◌+◌, ◌≡◌, ◌++◌, List, ◌≤◌, ◌∷◌, arith, All, [], All-append, subst, refl, ◌∙◌, ap, Bool, ◌<◌,
  sym,
}
use ferroada.Spool.Files.{FileSystem}
use ferroada.Spool.Accounting.Total.{total, total-append, total-le, All-split}
use ferroada.Spool.Accounting.{
  push-Accounts, SpoolRuntime, SpoolHandle, IsWithin, IsSound, Accounts, slot, KeepsShare,
  release_file_lem, inspect-KeepsShare, replay-KeepsShare, usize_mod, granted, is_file,
}
use ferroada.Spool.{new, push, inspect_bytes, next_replay_chunk, drop_handle}
use ferroada.Spool.Budget.Laws.{release_bytes_lem}
use ferroada.Spool.Budget.{new_bytes, new_files, release_bytes, release_file}

module _ (fs : FileSystem) where
  open fs use {File}

  pub record Process : Type 0 where
    pub runtime : SpoolRuntime
    pub handles : List (SpoolHandle File)

  abbrev stored : SpoolHandle File → ℕ
  stored h = h.len

  abbrev reserved : SpoolHandle File → ℕ
  reserved h = h.reserved

  pub data Step (p : Process) : Process → Type 0 where
    opens : (max : ℕ) → Step p (record p { handles = new fs max ∷ p.handles })
    pushes :
        (before after : List (SpoolHandle File)) (h : SpoolHandle File) (path : ℕ) (chunk : List ℕ)
        → p.handles ≡ before ++ h ∷ after
        → Step p (record {
          runtime = (push fs path chunk h p.runtime).2;
          handles = before ++ (push fs path chunk h p.runtime).1 ∷ after;
        })
    inspects :
        (before after : List (SpoolHandle File)) (h : SpoolHandle File)
        → p.handles ≡ before ++ h ∷ after
        → Step p (record p { handles = before ++ (inspect_bytes fs h).1 ∷ after })
    replays :
        (before after : List (SpoolHandle File)) (h : SpoolHandle File)
        → p.handles ≡ before ++ h ∷ after
        → Step p (record p { handles = before ++ (next_replay_chunk fs h).1 ∷ after })
    drops :
        (before after : List (SpoolHandle File)) (h : SpoolHandle File)
        → p.handles ≡ before ++ h ∷ after
        → Step p (record { runtime = drop_handle fs h p.runtime; handles = before ++ after })

  pub data Reach (p : Process) : Process → Type 0 where
    here : Reach p p
    next : {q r : Process} → Reach p q → Step q r → Reach p r

  pub record IsBalanced (p : Process) : Type 0 where
    pub within : IsWithin fs p.runtime
    pub sound : All (IsSound fs) p.handles
    pub bytes : p.runtime.bytes.current ≡ total reserved p.handles
    pub files : p.runtime.files.current ≡ total (slot fs) p.handles

  -- The sum over all handles, with one of them set apart.
  total_around :
      (f : SpoolHandle File → ℕ) (before after : List (SpoolHandle File)) (h : SpoolHandle File)
      → total f (before ++ h ∷ after) ≡ total f before + f h + total f after
  unfolding total
  total_around f before after h = omega (arith, total-append f before (h ∷ after))

  replace-IsBalanced :
      (rt rt' : SpoolRuntime) (before after : List (SpoolHandle File)) (h h' : SpoolHandle File)
      → IsBalanced (record { runtime = rt; handles = before ++ h ∷ after })
      → Accounts fs h h' rt rt'
      → IsBalanced (record { runtime = rt'; handles = before ++ h' ∷ after })
  replace-IsBalanced rt rt' before after h h' b a = record {
    within = a.within;
    sound =
        let (sb, _, sa) = All-split (IsSound fs) before h after b.sound in
        All-append (IsSound fs) before (h' ∷ after) sb (a.sound, sa);
    bytes = omega (
      arith,
      a.bytes,
      b.bytes,
      total_around reserved before after h,
      total_around reserved before after h',
    );
    files = omega (
      arith,
      a.files,
      b.files,
      total_around (slot fs) before after h,
      total_around (slot fs) before after h',
    );
  }

  KeepsShare-Accounts :
      (h h' : SpoolHandle File) (rt : SpoolRuntime)
      → IsWithin fs rt
      → IsSound fs h
      → KeepsShare fs h h'
      → Accounts fs h h' rt rt
  KeepsShare-Accounts h h' rt w s k = ground arith

  IsSound-at :
      {rt : SpoolRuntime} (before after : List (SpoolHandle File)) (h : SpoolHandle File)
      → IsBalanced (record { runtime = rt; handles = before ++ h ∷ after })
      → IsSound fs h
  IsSound-at before after h b = let (_, s, _) = All-split (IsSound fs) before h after b.sound in s

  -- The handles in the form that a step names them.
  at_handles :
      {p : Process} {hs : List (SpoolHandle File)}
      → p.handles ≡ hs
      → IsBalanced p
      → IsBalanced (record { runtime = p.runtime; handles = hs })
  at_handles e b = record {
    within = b.within;
    sound = subst (All (IsSound fs)) e b.sound;
    bytes = b.bytes ∙ ap (total reserved) e;
    files = b.files ∙ ap (total (slot fs)) e;
  }

  drop_gives_back :
      (h : SpoolHandle File) (rt : SpoolRuntime)
      → IsWithin fs rt
      → h.reserved ≤ rt.bytes.current
      → slot fs h ≤ rt.files.current
      → ((drop_handle fs h rt).bytes.current + h.reserved ≡ rt.bytes.current)
        × ((drop_handle fs h rt).files.current + slot fs h ≡ rt.files.current)
        × IsWithin fs (drop_handle fs h rt)
  unfolding drop_handle
  drop_gives_back h rt w r s =
      ground (arith, release_bytes_lem rt.bytes h.reserved, release_file_lem rt.files)

  drop_limits :
      (h : SpoolHandle File) (rt : SpoolRuntime)
      → ((drop_handle fs h rt).bytes.max ≡ rt.bytes.max)
        × ((drop_handle fs h rt).files.max ≡ rt.files.max)
  unfolding drop_handle release_bytes release_file
  drop_limits h rt = ground arith

  drop-IsBalanced :
      (rt : SpoolRuntime) (before after : List (SpoolHandle File)) (h : SpoolHandle File)
      → IsBalanced (record { runtime = rt; handles = before ++ h ∷ after })
      → IsBalanced (record { runtime = drop_handle fs h rt; handles = before ++ after })
  drop-IsBalanced rt before after h b =
      let (sb, _, sa) = All-split (IsSound fs) before h after b.sound in
      let around = total_around reserved before after h in
      let slots = total_around (slot fs) before after h in
      let (bytes_back, files_back, within) =
        drop_gives_back h rt b.within (omega (arith, around, b.bytes))
          (omega (arith, slots, b.files)) in
      record {
        within = within;
        sound = All-append (IsSound fs) before after sb sa;
        bytes = omega (arith, bytes_back, b.bytes, around, total-append reserved before after);
        files = omega (arith, files_back, b.files, slots, total-append (slot fs) before after);
      }

  Step-IsBalanced : {p q : Process} → Step p q → IsBalanced p → IsBalanced q
  unfolding new total
  Step-IsBalanced (opens max) b = record {
    within = b.within;
    sound = (record { slotted = refl; covered = omega arith }, b.sound);
    bytes = omega (arith, b.bytes);
    files = omega (arith, b.files);
  }
  Step-IsBalanced {p} (pushes before after h path chunk e) b =
      replace-IsBalanced p.runtime _ before after h _ (at_handles e b) (
        push-Accounts fs path chunk h p.runtime b.within
          (IsSound-at before after h (at_handles e b)))
  Step-IsBalanced {p} (inspects before after h e) b =
      replace-IsBalanced p.runtime p.runtime before after h _ (at_handles e b) (
        KeepsShare-Accounts h _ p.runtime b.within (IsSound-at before after h (at_handles e b))
          (inspect-KeepsShare fs h))
  Step-IsBalanced {p} (replays before after h e) b =
      replace-IsBalanced p.runtime p.runtime before after h _ (at_handles e b) (
        KeepsShare-Accounts h _ p.runtime b.within (IsSound-at before after h (at_handles e b))
          (replay-KeepsShare fs h))
  Step-IsBalanced {p} (drops before after h e) b =
      drop-IsBalanced p.runtime before after h (at_handles e b)

  -- The limits are those that the process started with.
  Step-limits :
      {p q : Process}
      → Step p q
      → IsBalanced p
      → (q.runtime.bytes.max ≡ p.runtime.bytes.max) × (q.runtime.files.max ≡ p.runtime.files.max)
  Step-limits (opens max) b = (refl, refl)
  Step-limits {p} (pushes before after h path chunk e) b =
      let a =
        push-Accounts fs path chunk h p.runtime b.within
          (IsSound-at before after h (at_handles e b)) in
      (a.bytes_max, a.files_max)
  Step-limits (inspects before after h e) b = (refl, refl)
  Step-limits (replays before after h e) b = (refl, refl)
  Step-limits {p} (drops before after h e) b = drop_limits h p.runtime

  Reach-IsBalanced :
      {p q : Process}
      → IsBalanced p
      → Reach p q
      → IsBalanced q
        × (q.runtime.bytes.max ≡ p.runtime.bytes.max)
        × (q.runtime.files.max ≡ p.runtime.files.max)
  Reach-IsBalanced b here = (b, refl, refl)
  Reach-IsBalanced b (next r s) =
      let (b', bytes, files) = Reach-IsBalanced b r in
      let (bytes', files') = Step-limits s b' in
      (Step-IsBalanced s b', bytes' ∙ bytes, files' ∙ files)

  -- A process that has spooled nothing yet.
  abbrev pub start : Bool → ℕ → ℕ → Process
  start dir max_bytes max_files = record {
    runtime = record { dir = dir; bytes = new_bytes max_bytes; files = new_files max_files };
    handles = [];
  }

  start-IsBalanced :
      (dir : Bool) (max_bytes max_files : ℕ)
      → max_bytes < usize_mod
      → max_files < usize_mod
      → IsBalanced (start dir max_bytes max_files)
  unfolding new_bytes new_files total
  start-IsBalanced dir max_bytes max_files h k = record {
    within = omega arith;
    sound = tt;
    bytes = refl;
    files = refl;
  }

  -- Whatever the handles do, failures included, the bytes that all bodies store together never pass
  -- the byte budget, and the bodies that are in files never outnumber the file budget.
  pub Reach-budgets :
      (dir : Bool) (max_bytes max_files : ℕ) (p : Process)
      → max_bytes < usize_mod
      → max_files < usize_mod
      → Reach (start dir max_bytes max_files) p
      → (total (λ h. h.len) p.handles ≤ max_bytes)
        × (total (λ h. granted (is_file h.storage) 1) p.handles ≤ max_files)
  unfolding new_bytes new_files
  Reach-budgets dir max_bytes max_files p h k r =
      let (b, bytes_max, files_max) =
        Reach-IsBalanced (start-IsBalanced dir max_bytes max_files h k) r in
      (
        omega (
          arith,
          total-le stored reserved (IsSound fs) (λ a s. s.covered) p.handles b.sound,
          b.bytes,
          b.within.bytes,
          bytes_max,
        ),
        omega (
          arith,
          total-le (λ a. granted (is_file a.storage) 1) (slot fs) (IsSound fs)
              (λ a s. le_of_eq (ap (λ t. granted t 1) (sym s.slotted))) p.handles b.sound,
          b.files,
          b.within.files,
          files_max,
        ),
      )

  -- When no handle is left, the counters are back at zero: nothing leaks.
  pub Reach-no_leak :
      (dir : Bool) (max_bytes max_files : ℕ) (p : Process)
      → max_bytes < usize_mod
      → max_files < usize_mod
      → Reach (start dir max_bytes max_files) p
      → p.handles ≡ []
      → (p.runtime.bytes.current ≡ 0) × (p.runtime.files.current ≡ 0)
  unfolding total
  Reach-no_leak dir max_bytes max_files p h k r empty =
      let (b, _, _) = Reach-IsBalanced (start-IsBalanced dir max_bytes max_files h k) r in
      (b.bytes ∙ ap (total reserved) empty, b.files ∙ ap (total (slot fs)) empty)
