-- ===== src/Graphql/Quota/Ledger.antt =====
-- The quota of src/graphql.rs against the requests that it let through.
use ferroada.Prelude.{
  ℕ, ◌+◌, ◌-◌, ◌^◌, ◌%◌, ◌==◌, ◌≤◌, ◌<◌, ◌≡◌, ◌↔◌, ltb, List, [], ◌∷◌, ◌++◌, list_eq, true, false,
  Option, none, some, Result, ok, err, if◌then◌else◌, if_both, arith, refl, sym, ◌∙◌, subst,
  Bool-cases, inl, inr,
}
use ferroada.Text.{Text, text_eq, text_eq_iff}
use ferroada.DashMap.{or_default, get, put}
use ferroada.DashMap.Laws.{and_then, get-put, IsUnique, get-retain, retain-IsUnique, put-IsUnique}
use ferroada.Graphql.Walk.{GraphqlFailure, saturating}
use ferroada.Graphql.Quota.{
  QuotaBook, live_stamps, keep_some, counted, has_room, sweep, used, spend, consume_quota,
}

-- What was let through: for whom, when and at which cost, the newest first.
abbrev pub Ledger : Type 0
Ledger = List (Text × (ℕ × ℕ))

abbrev pub charges : Text → Ledger → List (ℕ × ℕ)
charges key [] = []
charges key ((k, charge) ∷ ledger) =
    let rest = charges key ledger in if list_eq k key then charge ∷ rest else rest

-- The cost of what lies within the window that ends at `now`.
abbrev pub spent : ℕ → ℕ → List (ℕ × ℕ) → ℕ
spent window now [] = 0
spent window now ((at, cost) ∷ stamps) =
    let rest = spent window now stamps in if ltb (now - at) window then cost + rest else rest

abbrev pub entered : Result GraphqlFailure (Unit {0}) → Text × (ℕ × ℕ) → Ledger → Ledger
entered (ok u) entry ledger = entry ∷ ledger
entered (err e) entry ledger = ledger

abbrev pub empty_book : QuotaBook
empty_book = record { hits = []; n = 0 }

-- What requests lead to, up to the instant of the last one, and which of them were let through. The
-- policies of a site and of its routes share a book, each with its own quota and window: `window` is
-- one that no window among them is shorter than.
pub data Reached (window : ℕ) : ℕ → QuotaBook → Ledger → Type 0 where
  start : Reached window 0 empty_book []
  consumed :
      {since : ℕ} {book : QuotaBook} {ledger : Ledger} (own max sweep_now now cost : ℕ) (key : Text)
      → Reached window since book ledger
      → window ≤ own
      → since ≤ sweep_now
      → sweep_now ≤ now
      → Reached window now (consume_quota sweep_now now (some max) own key cost book).0 (
          entered
            (consume_quota sweep_now now (some max) own key cost book).1
            (key, (now, cost))
            ledger)

record IsTracking (window since : ℕ) (ledger : Ledger) (book : QuotaBook) : Type 0 where
  unique : IsUnique book.hits
  counting :
      (key : Text) (t : ℕ)
      → since ≤ t
      → spent window t (or_default [] (get book.hits key)) ≡ spent window t (charges key ledger)

spent-live_stamps :
    (window own now t : ℕ) (q : List (ℕ × ℕ))
    → window ≤ own
    → now ≤ t
    → spent window t (live_stamps own now q) ≡ spent window t q
unfolding live_stamps
spent-live_stamps window own now t [] wide le = refl
spent-live_stamps window own now t ((at, cost) ∷ q) wide le =
    ground (arith, le, wide, spent-live_stamps window own now t q wide le)

spent-append :
    (window t : ℕ) (q : List (ℕ × ℕ)) (at cost : ℕ)
    → spent window t (q ++ (at, cost) ∷ []) ≡ spent window t ((at, cost) ∷ q)
spent-append window t [] at cost = refl
spent-append window t ((a, c) ∷ q) at cost = ground (arith, spent-append window t q at cost)

-- `used` adds up what is live.
used-live_stamps :
    (window now total : ℕ) (q : List (ℕ × ℕ))
    → total ≤ 2 ^ 64 - 1
    → used total (live_stamps window now q) ≡ saturating 64 (total + spent window now q)
unfolding used live_stamps
used-live_stamps window now total [] le = ground (arith, le)
used-live_stamps window now total ((at, cost) ∷ q) le = ground (
  arith,
  le,
  used-live_stamps window now total q le,
  used-live_stamps window now (saturating 64 (total + cost)) q,
)

keep_some-or_default : (q : List (ℕ × ℕ)) → or_default [] (keep_some q) ≡ q
keep_some-or_default [] = refl
keep_some-or_default (s ∷ q) = refl

kept :
    (window now : ℕ) (o : Option (List (ℕ × ℕ)))
    → or_default [] (and_then o (λ stamps. keep_some (live_stamps window now stamps)))
      ≡ live_stamps window now (or_default [] o)
unfolding live_stamps
kept window now none = refl
kept window now (some q) = keep_some-or_default (live_stamps window now q)

later-IsTracking :
    {window since : ℕ} {ledger : Ledger} {book : QuotaBook} (s : ℕ)
    → since ≤ s
    → IsTracking window since ledger book
    → IsTracking window s ledger book
later-IsTracking s le k = record {
  unique = k.unique;
  counting = λ key t h. k.counting key t (omega (arith, le, h));
}

sweep-IsTracking :
    {window since : ℕ} {ledger : Ledger} {book : QuotaBook} (own : ℕ)
    → window ≤ own
    → IsTracking window since ledger book
    → IsTracking window since ledger (sweep own since book)
unfolding sweep
sweep-IsTracking {window} {since} {ledger} {book} own wide k = record {
  unique = retain-IsUnique _ book.hits k.unique;
  counting = λ key t h.
      subst (λ q. spent window t (or_default [] q) ≡ spent window t (charges key ledger))
        (sym
          (get-retain (λ stamps. keep_some (live_stamps own since stamps)) book.hits key k.unique))
        (subst (λ q. spent window t q ≡ spent window t (charges key ledger))
          (sym (kept own since (get book.hits key)))
          (spent-live_stamps window own since t (or_default [] (get book.hits key)) wide h
            ∙ k.counting key t h));
}

counted-IsTracking :
    {window since : ℕ} {ledger : Ledger} {book : QuotaBook} (own : ℕ)
    → window ≤ own
    → IsTracking window since ledger book
    → IsTracking window since ledger (counted own since book)
unfolding counted
counted-IsTracking {window} {since} {ledger} {book} own wide k =
    let next : QuotaBook = record book { n = (book.n + 1) % 2 ^ 64 } in
    let same : IsTracking window since ledger next = record {
      unique = k.unique;
      counting = k.counting;
    } in
    if_both (IsTracking window since ledger) (book.n % 256 == 0)
      (λ e. sweep-IsTracking own wide same) (λ e. same)

-- What is stored under a key after `spend`, with and without the request.
put-IsTracking :
    {window now : ℕ} {ledger : Ledger} {book : QuotaBook} (key : Text) (q : List (ℕ × ℕ))
    (entries : Ledger)
    → IsTracking window now ledger book
    → ((t : ℕ) → now ≤ t → spent window t q ≡ spent window t (charges key (entries ++ ledger)))
    → ((j : Text) → list_eq key j ≡ false → charges j (entries ++ ledger) ≡ charges j ledger)
    → IsTracking window now (entries ++ ledger) (record book { hits = put book.hits key q })
put-IsTracking {window} {now} {ledger} {book} key q entries k mine others = record {
  unique = put-IsUnique book.hits key q k.unique;
  counting = λ j t h. elim (Bool-cases (list_eq key j)) [
    | inl here ↦
        let same : key ≡ j = (text_eq_iff key j).0 here in
        let m = mine t h in ground (arith, get-put book.hits key j q, here, same, m)
    | inr there ↦
        let o = others j there in
        let c = k.counting j t h in ground (arith, get-put book.hits key j q, there, o, c)
  ];
}

-- Any policy that shares the book, its window no shorter than `window`.
module _ (window own max : ℕ) (wide : window ≤ own) where
  spend-IsTracking :
      (now cost : ℕ) (key : Text) (ledger : Ledger) (book : QuotaBook)
      → IsTracking window now ledger book
      → IsTracking window now
          (entered (spend own max now key cost book).1 (key, (now, cost)) ledger)
          (spend own max now key cost book).0
  unfolding spend
  spend-IsTracking now cost key ledger book k =
      let q : List (ℕ × ℕ) = or_default [] (get book.hits key) in
      let live : List (ℕ × ℕ) = live_stamps own now q in
      let same : (t : ℕ) → now ≤ t → spent window t live ≡ spent window t (charges key ledger) =
        λ t h. spent-live_stamps window own now t q wide h ∙ k.counting key t h in
      if_both
        (λ (r : QuotaBook × Result GraphqlFailure (Unit {0})).
          IsTracking window now (entered r.1 (key, (now, cost)) ledger) r.0)
        (ltb max (saturating 64 (used 0 live + cost)))
        (λ e. put-IsTracking key live [] k same (λ j h. refl))
        (λ e.
          put-IsTracking key (live ++ (now, cost) ∷ []) ((key, (now, cost)) ∷ []) k
            (λ t h.
              let s = same t h in
              let a = spent-append window t live now cost in
              let self = (text_eq_iff key key).1 refl in ground (arith, s, a, self))
            (λ j h. ground (arith, h)))

  consumed-IsTracking :
      {since : ℕ} {ledger : Ledger} {book : QuotaBook} (sweep_now now cost : ℕ) (key : Text)
      → since ≤ sweep_now
      → sweep_now ≤ now
      → IsTracking window since ledger book
      → IsTracking window now
          (entered
            (consume_quota sweep_now now (some max) own key cost book).1
            (key, (now, cost))
            ledger)
          (consume_quota sweep_now now (some max) own key cost book).0
  unfolding consume_quota
  consumed-IsTracking {since} {ledger} {book} sweep_now now cost key early late k =
      let swept =
        later-IsTracking now late
          (counted-IsTracking own wide (later-IsTracking sweep_now early k)) in
      if_both
        (λ (r : QuotaBook × Result GraphqlFailure (Unit {0})).
          IsTracking window now (entered r.1 (key, (now, cost)) ledger) r.0)
        (has_room key (counted own sweep_now book))
        (λ e. spend-IsTracking now cost key ledger (counted own sweep_now book) swept) (λ e. swept)

Reached-IsTracking :
    {window since : ℕ} {book : QuotaBook} {ledger : Ledger}
    → Reached window since book ledger
    → IsTracking window since ledger book
unfolding get
Reached-IsTracking start = record { unique = tt; counting = λ key t h. refl }
Reached-IsTracking {window} (consumed own max sweep_now now cost key before wide early late) =
    consumed-IsTracking window own max wide sweep_now now cost key early late
      (Reached-IsTracking before)

module _ (window max : ℕ) (small : max < 2 ^ 64 - 1) where
  -- What `spend` compares with the maximum.
  spend-decides :
      (now cost : ℕ) (key : Text) (ledger : Ledger) (book : QuotaBook)
      → IsTracking window now ledger book
      → ((spend window max now key cost book).1 ≡ ok tt)
        ↔ (spent window now (charges key ledger) + cost ≤ max)
  unfolding spend
  spend-decides now cost key ledger book k =
      let q : List (ℕ × ℕ) = or_default [] (get book.hits key) in
      let sum = used-live_stamps window now 0 q (omega arith) in
      let c = k.counting key now (omega arith) in ground (arith, small, sum, c)

  -- A request is let through exactly when its cost and the costs of the requests under its key that
  -- were let through within the window are together within the quota, and its key is known or fewer
  -- than 50,000 are. The book may be shared with policies of other quotas and of windows that are not
  -- shorter; those of shorter ones are excluded. The quota is below the range of 64 bits, and no
  -- reading of the clock goes back.
  pub consume_quota-decides :
      {since : ℕ} {book : QuotaBook} {ledger : Ledger} (sweep_now now cost : ℕ) (key : Text)
      → Reached window since book ledger
      → since ≤ sweep_now
      → sweep_now ≤ now
      → ((consume_quota sweep_now now (some max) window key cost book).1 ≡ ok tt) ↔ (
          (spent window now (charges key ledger) + cost ≤ max)
          × (has_room key (counted window sweep_now book) ≡ true))
  unfolding consume_quota
  consume_quota-decides {since} {book} {ledger} sweep_now now cost key before early late =
      let tracked = later-IsTracking now late (
        counted-IsTracking window (omega arith)
          (later-IsTracking sweep_now early (Reached-IsTracking before))) in
      let d = spend-decides now cost key ledger (counted window sweep_now book) tracked in
      elim (Bool-cases (has_room key (counted window sweep_now book))) [
        | inl room ↦ ground (arith, room, d)
        | inr full ↦ ground (arith, full)
      ]
