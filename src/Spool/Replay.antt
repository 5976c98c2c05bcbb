-- ===== src/Spool/Replay.antt =====
-- What is sent upstream is what was stored. Reads may be short or fail.
use mathlib.Core.Path.{ap₂}
use ferroada.Prelude.{
  ℕ, ◌+◌, ◌≡◌, ◌∙◌, drop, List, take, length, ◌≢◌, Result, false, Option, ◌++◌, ◌≤◌, sym, [], true,
  err, take-append-drop, drop-nil, some, ◌∷◌, ok, suc, none, arith, ◌<◌, zero, drop-drop, refl,
  leb→le, ap, Bool-cases, subst, inl, ◌==◌, inr, take-length_self, ◌⊎◌, length-append, length-drop,
}
use ferroada.Spool.Files.{FileSystem, Storage, memory, file}
use ferroada.Spool.Pushing.{Holds, StoredAs}
use ferroada.Spool.{
  SpoolHandle, replay_read, SpoolError, chunk_size, io, replay_file, replay_storage,
  next_replay_chunk,
}

drop_of_take :
    (k : ℕ) (c xs : List ℕ)
    → c ≡ take (length c) (drop k xs)
    → drop k xs ≡ c ++ drop (k + length c) xs
drop_of_take k c xs e =
    sym (take-append-drop (length c) (drop k xs)) ∙ ap₂ ◌++◌ (sym e) (drop-drop k (length c) xs)

drop_past : (k : ℕ) (xs : List ℕ) → length xs ≤ k → drop k xs ≡ []
drop_past k [] h = drop-nil k
drop_past zero (x ∷ xs) h = elim h [ ]
drop_past (suc k) (x ∷ xs) h = drop_past k xs (omega arith)

module _ (fs : FileSystem) where
  open fs use {File, contents, cursor, seek_start, read, seek_start_lem, read_lem}

  abbrev pub StoredAt : Storage File → List ℕ → ℕ → Type 0
  StoredAt (memory buf) bs k = (buf ≡ bs) × (k ≡ 0)
  StoredAt (file f copy) bs k = (contents f ≡ bs) × (k ≢ 0 → cursor f ≡ k)

  -- `k` bytes of the body `bs` have been replayed.
  pub record IsReplaying (h : SpoolHandle File) (bs : List ℕ) (k : ℕ) : Type 0 where
    pub counted : h.len ≡ length bs
    pub at : h.replay_done ≡ false → h.replay_at ≡ k
    pub complete : h.replay_done ≡ true → length bs ≤ k
    pub stored : h.replay_done ≡ false → StoredAt h.storage bs k

  -- One call: a failure, the end, or the next bytes of the body.
  pub data Replays (bs : List ℕ) (k : ℕ) (r : Result SpoolError (Option (List ℕ)))
      (h' : SpoolHandle File) : Type 0 where
    failed : r ≡ err io → Replays bs k r h'
    ended : r ≡ ok none → drop k bs ≡ [] → Replays bs k r h'
    chunk :
        (c : List ℕ)
        → r ≡ ok (some c)
        → 0 < length c
        → drop k bs ≡ c ++ drop (k + length c) bs
        → IsReplaying h' bs (k + length c)
        → Replays bs k r h'

  replay_read-Replays :
      (f : File) (h : SpoolHandle File) (bs : List ℕ)
      → h.len ≡ length bs
      → contents f ≡ bs
      → cursor f ≡ h.replay_at
      → Replays bs h.replay_at (replay_read fs f h).0 (replay_read fs f h).1
  unfolding replay_read
  replay_read-Replays f h bs n held at = go (read f (chunk_size fs h)).0 refl
    where
      go :
          (found : Option (List ℕ))
          → (read f (chunk_size fs h)).0 ≡ found
          → Replays bs h.replay_at (replay_read fs f h).0 (replay_read fs f h).1
      go none e = failed (rw (e, replay_read))
      go (some []) e =
          let (_, _, stop, _, _) = read_lem f (chunk_size fs h) [] e in
          ended (rw (e, replay_read)) (
            drop_past h.replay_at bs
              (omega (arith, stop refl (omega arith), ap (length {A = ℕ}) held, at)))
      go (some (b ∷ c)) e =
          let (part, _, _, same, moved) = read_lem f (chunk_size fs h) (b ∷ c) e in
          rw (e, replay_read)
            (chunk (b ∷ c) refl (omega arith)
              (drop_of_take h.replay_at (b ∷ c) bs
                (part ∙ ap₂ (λ k xs. take (suc (length c)) (drop k xs)) at held))
              (record {
                counted = n;
                at = λ _. refl;
                complete = λ done. omega (arith, leb→le _ _ done);
                stored = λ _. (same ∙ held, λ _. moved ∙ ap (λ k. k + suc (length c)) at);
              }))

  replay_file-Replays :
      (f : File) (h : SpoolHandle File) (bs : List ℕ)
      → h.len ≡ length bs
      → contents f ≡ bs
      → (h.replay_at ≢ 0 → cursor f ≡ h.replay_at)
      → Replays bs h.replay_at (replay_file fs f h).0 (replay_file fs f h).1
  unfolding replay_file
  replay_file-Replays f h bs n held at = elim (Bool-cases (h.replay_at == 0)) [
    | inr later ↦ rw later (replay_read-Replays f h bs n held (at (λ z. ground arith)))
    | inl first ↦ elim (Bool-cases (seek_start f).0) [
      | inr lost ↦ rw (first, lost, replay_file) (failed refl)
      | inl sought ↦
          let (same, rewound) = seek_start_lem f sought in
          rw (first, sought, replay_file)
            (replay_read-Replays (seek_start f).1 h bs n (same ∙ held) (ground arith))
    ]
  ]

  replay_storage-Replays :
      (s : Storage File) (h : SpoolHandle File) (bs : List ℕ) (k : ℕ)
      → h.len ≡ length bs
      → h.replay_at ≡ k
      → StoredAt s bs k
      → Replays bs k (replay_storage fs s h).0 (replay_storage fs s h).1
  unfolding replay_storage
  replay_storage-Replays (memory []) h bs k n e (held, z) =
      ended refl (drop_past k bs (omega (arith, ap (length {A = ℕ}) held)))
  replay_storage-Replays (memory (b ∷ buf)) h bs k n e (held, z) =
      chunk (b ∷ buf) refl (omega arith)
        (drop_of_take k (b ∷ buf) bs (rw (z, ← held) (sym (take-length_self (b ∷ buf)))))
        (record {
          counted = n;
          at = λ open'. cc open';
          complete = λ _. omega (arith, ap (length {A = ℕ}) held);
          stored = λ open'. cc open';
        })
  replay_storage-Replays (file f copy) h bs k n e (held, at) =
      subst (λ j. Replays bs j (replay_file fs f h).0 (replay_file fs f h).1) e
        (replay_file-Replays f h bs n held (λ later. at (λ z'. later (e ∙ z')) ∙ sym e))

  pub next_replay_chunk-Replays :
      (h : SpoolHandle File) (bs : List ℕ) (k : ℕ)
      → IsReplaying h bs k
      → Replays bs k (next_replay_chunk fs h).0 (next_replay_chunk fs h).1
  unfolding next_replay_chunk
  next_replay_chunk-Replays h bs k v = elim (Bool-cases h.replay_done) [
    | inl done ↦ rw (done, next_replay_chunk) (ended refl (drop_past k bs (v.complete done)))
    | inr more ↦
        simp (more, next_replay_chunk)
          (replay_storage-Replays h.storage h bs k v.counted (v.at more) (v.stored more))
  ]

  -- What the calls bring until there is no more, in order. `none` if the fuel runs out.
  pub replay_all : ℕ → SpoolHandle File → Option (Result SpoolError (List ℕ))
  replay_all zero h = none
  replay_all (suc fuel) h = elim (next_replay_chunk fs h).0 [
    | err e ↦ some (err e)
    | ok none ↦ some (ok [])
    | ok (some c) ↦ elim (replay_all fuel (next_replay_chunk fs h).1) [
      | none ↦ none
      | some (err e) ↦ some (err e)
      | some (ok rest) ↦ some (ok (c ++ rest))
    ]
  ]

  replay_all-from :
      (fuel k : ℕ) (h : SpoolHandle File) (bs : List ℕ)
      → IsReplaying h bs k
      → k ≤ length bs
      → length bs < k + fuel
      → (replay_all fuel h ≡ some (ok (drop k bs))) ⊎ (replay_all fuel h ≡ some (err io))
  unfolding replay_all
  replay_all-from zero k h bs v le m = absurd (omega arith)
  replay_all-from (suc fuel) k h bs v le m = elim (next_replay_chunk-Replays h bs k v) [
    | failed e ↦ inr (rw (e, replay_all))
    | ended e rest ↦ inl (rw (e, rest, replay_all))
    | chunk c e some_bytes part v' ↦
        elim (replay_all-from fuel (k + length c) (next_replay_chunk fs h).1 bs v' (more c part)
          (omega arith)) [
            | inl sent ↦ inl (rw (e, sent, part, replay_all))
            | inr lost ↦ inr (rw (e, lost, replay_all))
          ]
  ]
    where
      more : (c : List ℕ) → drop k bs ≡ c ++ drop (k + length c) bs → k + length c ≤ length bs
      more c part = omega (
        arith,
        ap (length {A = ℕ}) part,
        length-append c (drop (k + length c) bs),
        length-drop k bs,
        length-drop (k + length c) bs,
      )

  IsReplaying-start : (s : Storage File) (bs : List ℕ) → StoredAs fs s bs → StoredAt s bs 0
  IsReplaying-start (memory buf) bs (held, _) = (held, refl)
  IsReplaying-start (file f copy) bs (held, _, _) = (held, λ z. absurd (z refl))

  -- A body that has not been replayed yet is replayed whole and in order by at most one call more
  -- than it has bytes, however short the reads are, unless a read or a seek fails: then the result
  -- is that failure and not a shorter body.
  pub replay_all-Holds :
      (fuel : ℕ) (h : SpoolHandle File) (bs : List ℕ)
      → Holds fs h bs
      → h.replay_at ≡ 0
      → h.replay_done ≡ false
      → length bs < fuel
      → (replay_all fuel h ≡ some (ok bs)) ⊎ (replay_all fuel h ≡ some (err io))
  replay_all-Holds fuel h bs v at fresh enough =
      replay_all-from fuel 0 h bs
        (record {
          counted = v.counted;
          at = λ _. at;
          complete = λ done. cc (sym fresh ∙ done);
          stored = λ _. IsReplaying-start h.storage bs v.stored;
        })
        (omega arith) (omega arith)
