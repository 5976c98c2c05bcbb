-- ===== src/Spool/Inspection.antt =====
-- What the WAF inspects is what was stored.
use ferroada.Prelude.{ℕ, ◌≡◌, refl, List, ok, arith, sym, ◌∙◌, ok-injective, subst, some, none}
use ferroada.Spool.Files.{FileSystem, Storage, memory, file}
use ferroada.Spool.Pushing.{Holds, StoredAs}
use ferroada.Spool.{inspect_bytes, fill_inspect, inspect_storage, SpoolHandle}

module _ (fs : FileSystem) where
  open fs use {File, contents, cursor, seek_start, read_to_end, seek_start_lem, read_to_end_lem}

  fill_inspect_lem :
      (f : File) (h : SpoolHandle File) (bs copy : List ℕ)
      → contents f ≡ bs
      → (fill_inspect fs f h).0 ≡ ok copy
      → (copy ≡ bs)
        × ((fill_inspect fs f h).1.len ≡ h.len)
        × ((fill_inspect fs f h).1.max ≡ h.max)
        × StoredAs fs (fill_inspect fs f h).1.storage bs
  unfolding fill_inspect
  fill_inspect_lem f h bs copy held e =
      ground (arith, seek_start_lem f, read_to_end_lem (seek_start f).1 copy)

  inspect_storage_lem :
      (s : Storage File) (h : SpoolHandle File) (bs copy : List ℕ)
      → h.storage ≡ s
      → StoredAs fs s bs
      → (inspect_storage fs s h).0 ≡ ok copy
      → (copy ≡ bs)
        × ((inspect_storage fs s h).1.len ≡ h.len)
        × ((inspect_storage fs s h).1.max ≡ h.max)
        × StoredAs fs (inspect_storage fs s h).1.storage bs
  unfolding inspect_storage
  inspect_storage_lem (memory buf) h bs copy same v e =
      (sym (ok-injective e) ∙ v.0, refl, refl, subst (λ s. StoredAs fs s bs) (sym same) v)
  inspect_storage_lem (file f (some buf)) h bs copy same v e =
      (sym (ok-injective e) ∙ v.2, refl, refl, subst (λ s. StoredAs fs s bs) (sym same) v)
  inspect_storage_lem (file f none) h bs copy same v e = fill_inspect_lem f h bs copy v.0 e

  -- The bytes that are inspected are the body, whether it lies in memory, in the file or in a copy
  -- made before; and the handle still holds the body.
  pub inspect-Holds :
      (h : SpoolHandle File) (bs copy : List ℕ)
      → Holds fs h bs
      → (inspect_bytes fs h).0 ≡ ok copy
      → (copy ≡ bs) × Holds fs (inspect_bytes fs h).1 bs
  unfolding inspect_bytes
  inspect-Holds h bs copy v e =
      let (same, len, max, stored) = inspect_storage_lem h.storage h bs copy refl v.stored e in
      (same, record { counted = len ∙ v.counted; fits = omega arith; stored = stored })
