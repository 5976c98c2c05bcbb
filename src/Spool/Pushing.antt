-- ===== src/Spool/Pushing.antt =====
-- What a handle stores: the concatenation of the chunks that were accepted.
use ferroada.Prelude.{
  ℕ, ◌+◌, ◌≡◌, Option, List, some, length, ◌≤◌, [], ok, ◌++◌, arith, none, Option-cases, inl, inr,
  Bool-cases, ltb, ◌∙◌, append-nil, sym, ◌∷◌, subst, suc, ap, length-append, refl,
}
use ferroada.Spool.Files.{FileSystem, Storage, memory, file}
use ferroada.Spool.{
  push, SpoolHandle, SpoolRuntime, fill, memory_ceiling, open_file, spill_to_file, store, abandon,
  buffered, push_fitting,
}
use ferroada.Spool.Budget.{acquire, at_most, reserve, checked_add}

module _ (fs : FileSystem) where
  open fs use {File, contents, cursor, create, write_all, create_lem, write_all_lem}

  -- The copy for inspection is the body, if there is one.
  abbrev pub IsCopy : Option (List ℕ) → List ℕ → Type 0
  IsCopy none bs = Unit
  IsCopy (some copy) bs = copy ≡ bs

  abbrev pub StoredAs : Storage File → List ℕ → Type 0
  StoredAs (memory buf) bs = (buf ≡ bs) × (length buf ≤ memory_ceiling)
  StoredAs (file f copy) bs = (contents f ≡ bs) × (cursor f ≡ length bs) × IsCopy copy bs

  pub record Holds (h : SpoolHandle File) (bs : List ℕ) : Type 0 where
    pub counted : h.len ≡ length bs
    pub fits : h.len ≤ h.max
    pub stored : StoredAs h.storage bs

  module _ (h : SpoolHandle File) (rt : SpoolRuntime) where
    fill_stored :
        (f : File) (existing extra : List ℕ)
        → contents f ≡ []
        → cursor f ≡ 0
        → (fill fs h rt f existing extra).0 ≡ ok tt
        → ((fill fs h rt f existing extra).1.len ≡ h.len + length extra)
          × ((fill fs h rt f existing extra).1.max ≡ h.max)
          × StoredAs (fill fs h rt f existing extra).1.storage (existing ++ extra)
    unfolding fill
    fill_stored f existing extra empty start e =
        ground (arith, write_all_lem f existing, write_all_lem (write_all f existing).1 extra)

    open_file_stored :
        (path : ℕ) (extra : List ℕ)
        → (open_file fs path extra h rt).0 ≡ ok tt
        → ((open_file fs path extra h rt).1.len ≡ h.len + length extra)
          × ((open_file fs path extra h rt).1.max ≡ h.max)
          × StoredAs (open_file fs path extra h rt).1.storage (buffered h.storage ++ extra)
    unfolding open_file abandon
    open_file_stored path extra e = elim (Option-cases (create path)) [
      | inl failed ↦ cc (rw (failed, open_file) at e)
      | inr (f, opened) ↦
          let (empty, start) = create_lem path f opened in
          rw (opened, open_file)
            (fill_stored f (buffered h.storage) extra empty start (rw (opened, open_file) at e))
    ]

  spill_stored :
      (path : ℕ) (extra : List ℕ) (h : SpoolHandle File) (rt : SpoolRuntime)
      → (spill_to_file fs path extra h rt).0 ≡ ok tt
      → ((spill_to_file fs path extra h rt).1.len ≡ h.len + length extra)
        × ((spill_to_file fs path extra h rt).1.max ≡ h.max)
        × StoredAs (spill_to_file fs path extra h rt).1.storage (buffered h.storage ++ extra)
  unfolding spill_to_file open_file
  spill_stored path extra h rt e = elim (Bool-cases rt.dir) [
    | inr unset ↦ cc (rw (unset, spill_to_file) at e)
    | inl set ↦ elim (Bool-cases (acquire rt.files).1) [
      | inr full ↦ cc (rw (set, full, spill_to_file) at e)
      | inl granted ↦
          rw (set, granted, spill_to_file)
            (open_file_stored _ _ path extra (rw (set, granted, spill_to_file) at e))
    ]
  ]

  store_stored :
      (s : Storage File) (path : ℕ) (chunk bs : List ℕ) (next : ℕ) (h : SpoolHandle File)
      (rt : SpoolRuntime)
      → h.storage ≡ s
      → next ≡ h.len + length chunk
      → StoredAs s bs
      → (store fs s path chunk next h rt).0 ≡ ok tt
      → ((store fs s path chunk next h rt).1.len ≡ next)
        × ((store fs s path chunk next h rt).1.max ≡ h.max)
        × StoredAs (store fs s path chunk next h rt).1.storage (bs ++ chunk)
  unfolding store
  store_stored (memory buf) path chunk bs next h rt same n (held, _) e =
      elim (Bool-cases (ltb memory_ceiling (length buf + length chunk))) [
        | inl over ↦
            let (grown, kept, stored) = spill_stored path chunk h rt (rw (over, store) at e) in
            rw (over, store)
              (
                grown ∙ sym n,
                kept,
                subst
                    (λ buf'. StoredAs (spill_to_file fs path chunk h rt).1.storage (buf' ++ chunk))
                    (ap buffered same ∙ held) stored,
              )
        | inr within ↦ ground (arith, length-append buf chunk)
      ]
  store_stored (file f copy) path chunk bs next h rt same n (held, at_end, _) e =
      ground (arith, write_all_lem f chunk)

  push_fitting_stored :
      (path : ℕ) (chunk bs : List ℕ) (next : ℕ) (h : SpoolHandle File) (rt : SpoolRuntime)
      → next ≡ h.len + length chunk
      → StoredAs h.storage bs
      → (push_fitting fs path chunk next h rt).0 ≡ ok tt
      → ((push_fitting fs path chunk next h rt).1.len ≡ next)
        × ((push_fitting fs path chunk next h rt).1.max ≡ h.max)
        × StoredAs (push_fitting fs path chunk next h rt).1.storage (bs ++ chunk)
  unfolding push_fitting
  push_fitting_stored path chunk bs next h rt n held e =
      elim (Bool-cases (reserve rt.bytes (length chunk)).1) [
        | inr short ↦ cc (rw (short, push_fitting) at e)
        | inl granted ↦
            rw (granted, push_fitting)
              (store_stored h.storage path chunk bs next _ _ refl n held
                (rw (granted, push_fitting) at e))
      ]

  -- The test at the head of `push`.
  pub next_len_some :
      (len max extra next : ℕ)
      → at_most max (checked_add len extra) ≡ some next
      → (next ≡ len + extra) × (next ≤ max)
  next_len_some len max extra next e = ground arith

  -- A chunk that is accepted is appended to the body, in memory or in the file, whether or not the
  -- body is moved to the file on the way; and the body stays within the handle's limit.
  pub push-Holds :
      (path : ℕ) (chunk bs : List ℕ) (h : SpoolHandle File) (rt : SpoolRuntime)
      → Holds h bs
      → (push fs path chunk h rt).0 ≡ ok tt
      → Holds (push fs path chunk h rt).1 (bs ++ chunk)
  unfolding push
  push-Holds path [] bs h rt v e = rw append-nil v
  push-Holds path (b ∷ chunk) bs h rt v e =
      elim (Option-cases (at_most h.max (checked_add h.len (suc (length chunk))))) [
        | inl over ↦ cc (rw (over, push) at e)
        | inr (next, fits) ↦
            let (n, within) = next_len_some h.len h.max (suc (length chunk)) next fits in
            let (grown, kept, stored) =
              push_fitting_stored path (b ∷ chunk) bs next h rt n v.stored (rw (fits, push) at e) in
            rw (fits, push)
              (record {
                counted = omega (arith, grown, n, v.counted, length-append bs (b ∷ chunk));
                fits = omega (arith, grown, kept, within);
                stored = stored;
              })
      ]
