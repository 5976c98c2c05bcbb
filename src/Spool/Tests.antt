-- ===== src/Spool/Tests.antt =====
-- The spool over files held in memory, whose reads return at most three bytes.
use ferroada.Prelude.{
  ℕ, ◌≡◌, refl, min, max, List, some, take, ◌++◌, Option, [], drop, length, true, suc, ◌≤◌, ◌+◌,
  ◌∷◌, ◌<◌, ap, arith, zero, length-take, length-drop, sym, err, ok, none, ◌↔◌, ◌⊎◌, false,
}
use ferroada.Spool.Files.{FileSystem, file}
use ferroada.Spool.Budget.{reserve}
use ferroada.Spool.{
  SpoolHandle, SpoolRuntime, push, inspect_bytes, push_fitting, overflow, inspect_storage, new,
  drop_handle, store, fill_inspect, io,
}
use ferroada.Spool.Pushing.{Holds, push-Holds}
use ferroada.Spool.Refusals.{reserved_after, push_refused}
use ferroada.Spool.Replay.{replay_all, replay_all-Holds}
use ferroada.Spool.Accounting.System.{Process, Reach, Reach-no_leak, start, Step, Reach-budgets}
use ferroada.Spool.Accounting.Total.{total}
use ferroada.Spool.Inspection.{inspect-Holds}
use ferroada.Spool.Budget.Laws.{granted}
use ferroada.Spool.Accounting.{is_file}

record Image : Type 0 where
  contents : List ℕ
  cursor : ℕ

abbrev image_read : Image → ℕ → List ℕ
image_read f size = take (min 3 size) (drop f.cursor f.contents)

take_min : (k : ℕ) (xs : List ℕ) → take k xs ≡ take (length (take k xs)) xs
take_min zero xs = refl
take_min (suc k) [] = refl
take_min (suc k) (x ∷ xs) = ap (◌∷◌ x) (take_min k xs)

abbrev image_write : Image → List ℕ → Image
image_write f bytes = record {
  contents = f.contents ++ bytes;
  cursor = length (f.contents ++ bytes);
}

image_read_lem :
    (f : Image) (size : ℕ) (bytes : List ℕ)
    → ◌≡◌ {A = Option (List ℕ)} (some (image_read f size)) (some bytes)
    → (bytes ≡ take (length bytes) (drop f.cursor f.contents))
      × (length bytes ≤ size)
      × (bytes ≡ [] → 0 < size → length f.contents ≤ f.cursor)
      × (f.contents ≡ f.contents)
      × (f.cursor + length (image_read f size) ≡ f.cursor + length bytes)
image_read_lem f size bytes e =
    let same : image_read f size ≡ bytes = cc in
    rw (← same) (
      take_min (min 3 size) (drop f.cursor f.contents),
      omega (arith, length-take (min 3 size) (drop f.cursor f.contents)),
      (λ none_read some_room. omega (
        arith,
        ap (length {A = ℕ}) none_read,
        length-take (min 3 size) (drop f.cursor f.contents),
        length-drop f.cursor f.contents,
      )),
      refl,
      refl,
    )

abbrev empty_image : Image
empty_image = record { contents = []; cursor = 0 }

image_create_lem :
    (f : Image)
    → ◌≡◌ {A = Option Image} (some empty_image) (some f)
    → (f.contents ≡ []) × (f.cursor ≡ 0)
image_create_lem f e =
    let same : empty_image ≡ f = cc in
    (ap (λ (g : Image). g.contents) (sym same), ap (λ (g : Image). g.cursor) (sym same))

image_read_to_end_lem :
    (f : Image) (bytes : List ℕ)
    → ◌≡◌ {A = Option (List ℕ)} (some (drop f.cursor f.contents)) (some bytes)
    → bytes ≡ drop f.cursor f.contents
image_read_to_end_lem f bytes e = cc

abbrev images : FileSystem
images = record {
  File = Image;
  contents = λ f. f.contents;
  cursor = λ f. f.cursor;
  create = λ path. some empty_image;
  write_all = λ f bytes. (true, image_write f bytes);
  seek_start = λ f. (true, record f { cursor = 0 });
  read_to_end = λ f.
      (some (drop f.cursor f.contents), record f { cursor = max f.cursor (length f.contents) });
  read = λ f size.
      (some (image_read f size), record f { cursor = f.cursor + length (image_read f size) });
  create_lem = λ path f e. image_create_lem f e;
  write_all_lem = λ f bytes _ _. (refl, refl);
  seek_start_lem = λ f _. (refl, refl);
  read_to_end_lem = λ f bytes e. (image_read_to_end_lem f bytes e, refl, refl);
  read_lem = image_read_lem;
}

-- A body of 5 bytes in a file, as `push` leaves it once the body has passed the ceiling.
abbrev spilled : SpoolHandle Image
spilled = record {
  storage = file (record { contents = 1 ∷ 2 ∷ 3 ∷ 4 ∷ 5 ∷ []; cursor = 5 }) none;
  len = 5;
  max = 8;
  replay_at = 0;
  replay_done = false;
  reserved = 5;
  holds_file_slot = true;
}

abbrev busy : SpoolRuntime
busy = record {
  dir = true;
  bytes = record { current = 5; max = 10 };
  files = record { current = 1; max = 1 };
}

spilled-Holds : Holds images spilled (1 ∷ 2 ∷ 3 ∷ 4 ∷ 5 ∷ [])
spilled-Holds = record { counted = refl; fits = omega arith; stored = (refl, refl, tt) }

spilled-pushed : (push images 0 (6 ∷ []) spilled busy).0 ≡ ok tt
unfolding push push_fitting store reserve
spilled-pushed = refl

spilled-over : (push images 0 (6 ∷ 7 ∷ 8 ∷ 9 ∷ []) spilled busy).0 ≡ err overflow
unfolding push
spilled-over = refl

push-Holds_example :
    Holds images (push images 0 (6 ∷ []) spilled busy).1 (1 ∷ 2 ∷ 3 ∷ 4 ∷ 5 ∷ 6 ∷ [])
push-Holds_example =
    push-Holds images 0 (6 ∷ []) (1 ∷ 2 ∷ 3 ∷ 4 ∷ 5 ∷ []) spilled busy spilled-Holds spilled-pushed

push_refused_example :
    Holds images (push images 0 (6 ∷ 7 ∷ 8 ∷ 9 ∷ []) spilled busy).1 (1 ∷ 2 ∷ 3 ∷ 4 ∷ 5 ∷ [])
    × ((overflow ≡ overflow) ↔ (8 < 9))
    × ((push images 0 (6 ∷ 7 ∷ 8 ∷ 9 ∷ []) spilled busy).1.reserved
        ≡ reserved_after overflow spilled.reserved 4)
push_refused_example =
    push_refused images 0 (6 ∷ 7 ∷ 8 ∷ 9 ∷ []) (1 ∷ 2 ∷ 3 ∷ 4 ∷ 5 ∷ []) spilled busy overflow
      spilled-Holds spilled-over (λ e. cc e) (omega arith)

spilled-inspected : (inspect_bytes images spilled).0 ≡ ok (1 ∷ 2 ∷ 3 ∷ 4 ∷ 5 ∷ [])
unfolding inspect_bytes inspect_storage fill_inspect
spilled-inspected = refl

inspect-Holds_example :
    (◌≡◌ {A = List ℕ} (1 ∷ 2 ∷ 3 ∷ 4 ∷ 5 ∷ []) (1 ∷ 2 ∷ 3 ∷ 4 ∷ 5 ∷ []))
    × Holds images (inspect_bytes images spilled).1 (1 ∷ 2 ∷ 3 ∷ 4 ∷ 5 ∷ [])
inspect-Holds_example = inspect-Holds images spilled _ _ spilled-Holds spilled-inspected

replay_all-Holds_example :
    (replay_all images 6 spilled ≡ some (ok (1 ∷ 2 ∷ 3 ∷ 4 ∷ 5 ∷ [])))
    ⊎ (replay_all images 6 spilled ≡ some (err io))
replay_all-Holds_example = replay_all-Holds images 6 spilled _ spilled-Holds refl refl (omega arith)

-- One body opened, filled and dropped.
abbrev opened : SpoolHandle Image
opened = new images 4

abbrev idle : Process images
idle = start images true 10 1

abbrev after_push : Process images
after_push = record {
  runtime = (push images 0 (7 ∷ []) opened idle.runtime).2;
  handles = (push images 0 (7 ∷ []) opened idle.runtime).1 ∷ [];
}

abbrev after_drop : Process images
after_drop = record {
  runtime = drop_handle images (push images 0 (7 ∷ []) opened idle.runtime).1 after_push.runtime;
  handles = [];
}

after_push-Reach : Reach images idle after_push
after_push-Reach =
    Reach.next (Reach.next Reach.here (Step.opens 4)) (Step.pushes [] [] opened 0 (7 ∷ []) refl)

after_drop-Reach : Reach images idle after_drop
after_drop-Reach = Reach.next after_push-Reach (Step.drops [] [] _ refl)

Reach-budgets_example :
    (total (λ h. h.len) after_push.handles ≤ 10)
    × (total (λ h. granted (is_file h.storage) 1) after_push.handles ≤ 1)
Reach-budgets_example =
    Reach-budgets images true 10 1 after_push (omega arith) (omega arith) after_push-Reach

Reach-no_leak_example :
    (after_drop.runtime.bytes.current ≡ 0) × (after_drop.runtime.files.current ≡ 0)
Reach-no_leak_example =
    Reach-no_leak images true 10 1 after_drop (omega arith) (omega arith) after_drop-Reach refl
