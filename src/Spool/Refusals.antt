-- ===== src/Spool/Refusals.antt =====
-- What a refused chunk leaves behind, and when it is an overflow.
use native.Mathlib.Decide.{dec_lt}
use ferroada.Prelude.{
  ℕ, ◌+◌, ◌≡◌, List, some, length, ◌≤◌, [], arith, none, inl, inr, Bool-cases, ◌∙◌, sym, ◌∷◌, subst,
  suc, err, ◌≢◌, Bool, true, false, if◌then◌else◌, ap, ◌<◌, ◌↔◌, lt→ltb, le→leb,
}
use ferroada.Spool.Files.{FileSystem, Storage, memory, file}
use ferroada.Spool.{
  push, SpoolHandle, SpoolRuntime, fill, open_file, spill_to_file, store, abandon, push_fitting,
  SpoolError, io, overflow, budget,
}
use ferroada.Spool.Budget.{at_most, reserve, checked_add, usize_mod}
use ferroada.Spool.Pushing.{Holds, StoredAs}

abbrev pub is_budget : SpoolError → Bool
is_budget budget = true
is_budget _ = false

-- What a refused chunk leaves reserved: the bytes that it asked for are reserved where there are as
-- many, and stay so until the handle is dropped.
abbrev pub reserved_after : SpoolError → ℕ → ℕ → ℕ
reserved_after overflow before chunk = before
reserved_after budget before chunk = before
reserved_after _ before chunk = before + chunk

reserved_after_lem :
    (err' : SpoolError) (before chunk : ℕ)
    → err' ≢ overflow
    → (if is_budget err' then before else before + chunk) ≡ reserved_after err' before chunk
reserved_after_lem err' before chunk other = ground (arith, other)

module _ (fs : FileSystem) where
  open fs use {File}

  -- A refusal that is not a failing file leaves the body as it was.
  store_refused :
      (s : Storage File) (path : ℕ) (chunk bs : List ℕ) (next : ℕ) (h : SpoolHandle File)
      (rt : SpoolRuntime) (err' : SpoolError)
      → (store fs s path chunk next h rt).0 ≡ err err'
      → err' ≢ io
      → ((store fs s path chunk next h rt).1.len ≡ h.len)
        × ((store fs s path chunk next h rt).1.max ≡ h.max)
        × ((store fs s path chunk next h rt).1.storage ≡ h.storage)
        × ((store fs s path chunk next h rt).1.reserved ≡ h.reserved)
        × (err' ≢ budget)
  unfolding store spill_to_file open_file fill abandon
  store_refused (memory buf) path chunk bs next h rt err' e other = ground arith
  store_refused (file f copy) path chunk bs next h rt err' e other = ground arith

  store-ne-overflow :
      (s : Storage File) (path : ℕ) (chunk : List ℕ) (next : ℕ) (h : SpoolHandle File)
      (rt : SpoolRuntime)
      → (store fs s path chunk next h rt).0 ≢ err overflow
  unfolding store spill_to_file open_file fill abandon
  store-ne-overflow (memory buf) path chunk next h rt = ground arith
  store-ne-overflow (file f copy) path chunk next h rt = ground arith

  push_fitting_refused :
      (path : ℕ) (chunk : List ℕ) (next : ℕ) (h : SpoolHandle File) (rt : SpoolRuntime)
      (err' : SpoolError)
      → (push_fitting fs path chunk next h rt).0 ≡ err err'
      → err' ≢ io
      → (err' ≢ overflow)
        × ((push_fitting fs path chunk next h rt).1.len ≡ h.len)
        × ((push_fitting fs path chunk next h rt).1.max ≡ h.max)
        × ((push_fitting fs path chunk next h rt).1.storage ≡ h.storage)
        × ((push_fitting fs path chunk next h rt).1.reserved
            ≡ (if is_budget err' then h.reserved else h.reserved + length chunk))
  unfolding push_fitting
  push_fitting_refused path chunk next h rt err' e other =
      elim (Bool-cases (reserve rt.bytes (length chunk)).1) [
        | inr short ↦ rw (short, push_fitting) (ground arith)
        | inl granted ↦
            let reserved : SpoolHandle File = record h { reserved = h.reserved + length chunk } in
            let rt' : SpoolRuntime = record rt { bytes = (reserve rt.bytes (length chunk)).0 } in
            rw (granted, push_fitting)
              (ground (
                arith,
                store-ne-overflow h.storage path chunk next reserved rt',
                store_refused h.storage path chunk [] next reserved rt' err',
              ))
      ]

  Holds-same :
      (h h' : SpoolHandle File) (bs : List ℕ)
      → Holds fs h bs
      → h'.len ≡ h.len
      → h'.max ≡ h.max
      → h'.storage ≡ h.storage
      → Holds fs h' bs
  Holds-same h h' bs v p q r = record {
    counted = p ∙ v.counted;
    fits = omega arith;
    stored = subst (λ s. StoredAs fs s bs) (sym r) v.stored;
  }

  next_len_none :
      (len max extra : ℕ) → max < len + extra → at_most max (checked_add len extra) ≡ none
  next_len_none len max extra h = ground arith

  next_len_fits :
      (len max extra : ℕ)
      → len + extra < usize_mod
      → len + extra ≤ max
      → at_most max (checked_add len extra) ≡ some (len + extra)
  next_len_fits len max extra h k = rw (lt→ltb _ _ h, le→leb _ _ k)

  -- A refused chunk, unless it is the file that fails, leaves the body and its length as they were;
  -- and for a chunk whose length does not wrap, it is refused as an overflow exactly if the body
  -- would pass the handle's limit. What the handle has reserved stays the same for an overflow and for
  -- an exhausted budget; the other refusals come after the reservation and leave the chunk reserved.
  pub push_refused :
      (path : ℕ) (chunk bs : List ℕ) (h : SpoolHandle File) (rt : SpoolRuntime) (err' : SpoolError)
      → Holds fs h bs
      → (push fs path chunk h rt).0 ≡ err err'
      → err' ≢ io
      → h.len + length chunk < usize_mod
      → Holds fs (push fs path chunk h rt).1 bs
        × ((err' ≡ overflow) ↔ (h.max < h.len + length chunk))
        × ((push fs path chunk h rt).1.reserved ≡ reserved_after err' h.reserved (length chunk))
  unfolding push
  push_refused path [] bs h rt err' v e other small = cc e
  push_refused path (b ∷ chunk) bs h rt err' v e other small =
      elim (dec_lt h.max (h.len + suc (length chunk))) [
        | yes over ↦
            let none_left = next_len_none h.len h.max (suc (length chunk)) over in
            let same : overflow ≡ err' = cc (rw (none_left, push) at e) in
            rw (none_left, push)
              (
                v,
                (λ _. over, λ _. sym same),
                ap (λ x. reserved_after x h.reserved (suc (length chunk))) same,
              )
        | no within ↦
            let room = next_len_fits h.len h.max (suc (length chunk)) small (omega arith) in
            let (not_over, p, q, r, kept) =
              push_fitting_refused path (b ∷ chunk) _ h rt err' (rw (room, push) at e) other in
            rw (room, push)
              (
                Holds-same h _ bs v p q r,
                (λ o. absurd (not_over o), λ o. absurd (within o)),
                kept ∙ reserved_after_lem err' h.reserved (suc (length chunk)) not_over,
              )
      ]
