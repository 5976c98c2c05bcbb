-- ===== src/Spool/Budget/Laws.antt =====
-- Each budget's counter stays at or below its maximum, and what is given back was counted.
use ferroada.Prelude.{ℕ, ◌+◌, ◌≡◌, Bool, ◌≤◌, true, arith, ◌<◌, false}
use ferroada.Spool.Budget.{
  reserve, ByteBudget, release_bytes, acquire, release_file, FileBudget, usize_mod,
}

-- What was granted, in the form that `omega` adds up.
abbrev pub granted : Bool → ℕ → ℕ
granted true n = n
granted false n = 0

pub reserve_lem :
    (b : ByteBudget) (n : ℕ)
    → b.current ≤ b.max
    → ((reserve b n).0.current ≡ b.current + granted (reserve b n).1 n)
      × ((reserve b n).0.max ≡ b.max)
      × ((reserve b n).0.current ≤ b.max)
unfolding reserve
reserve_lem b n h = ground arith

pub release_bytes_lem :
    (b : ByteBudget) (n : ℕ)
    → n ≤ b.current
    → b.current < usize_mod
    → ((release_bytes b n).current + n ≡ b.current) × ((release_bytes b n).max ≡ b.max)
unfolding release_bytes
release_bytes_lem b n h k = ground arith

pub acquire_lem :
    (b : FileBudget)
    → b.current ≤ b.max
    → ((acquire b).0.current ≡ b.current + granted (acquire b).1 1)
      × ((acquire b).0.max ≡ b.max)
      × ((acquire b).0.current ≤ b.max)
unfolding acquire
acquire_lem b h = ground arith

pub release_file_lem :
    (b : FileBudget)
    → 0 < b.current
    → b.current < usize_mod
    → ((release_file b).current + 1 ≡ b.current) × ((release_file b).max ≡ b.max)
unfolding release_file
release_file_lem b h k = ground arith
