-- ===== src/Graphql/Quota.antt =====
-- The quota of src/graphql.rs: what a client may spend within a window. An instant is a number of
-- nanoseconds, and the clock is read twice: for the sweep, if there is one, and for the request.
pub mod Ledger
use ferroada.Prelude.{
  ℕ, ◌+◌, ◌-◌, ◌%◌, ◌^◌, ltb, leb, ◌==◌, List, [], ◌∷◌, ◌++◌, Bool, ◌||◌, Option, none, some,
  Result, ok, err, if◌then◌else◌,
}
use ferroada.Text.{Text, text, text_eq}
use ferroada.DashMap.{DashMap, get, has, put, retain, len, or_default}
use ferroada.Graphql.Walk.{GraphqlFailure, saturating}

pub record QuotaBook : Type 0 where
  pub hits : DashMap Text (List (ℕ × ℕ))
  pub n : ℕ

pub record GraphqlIdentity : Type 0 where
  pub sub : Option Text
  pub ip : Text

unfoldable pub quota_key : Text → GraphqlIdentity → Text
quota_key site identity = elim identity.sub [
  | some sub ↦ text "sub:" ++ (site ++ (b':' ∷ sub))
  | none ↦ text "ip:" ++ (site ++ (b':' ∷ identity.ip))
]

unfoldable pub live_stamps : ℕ → ℕ → List (ℕ × ℕ) → List (ℕ × ℕ)
live_stamps window now [] = []
live_stamps window now ((at, cost) ∷ stamps) =
    let rest = live_stamps window now stamps in
    if ltb (now - at) window then (at, cost) ∷ rest else rest

abbrev pub keep_some : List (ℕ × ℕ) → Option (List (ℕ × ℕ))
keep_some [] = none
keep_some (stamp ∷ stamps) = some (stamp ∷ stamps)

unfoldable pub sweep : ℕ → ℕ → QuotaBook → QuotaBook
unfolding live_stamps retain
sweep window now book = record book {
  hits = retain (λ key stamps. keep_some (live_stamps window now stamps)) book.hits;
}

unfoldable pub used : ℕ → List (ℕ × ℕ) → ℕ
used total [] = total
used total ((at, cost) ∷ stamps) = used (saturating 64 (total + cost)) stamps

abbrev pub quota_failure : GraphqlFailure
quota_failure = GraphqlFailure.limit (text "quota")

abbrev pub quota_max_keys : ℕ
quota_max_keys = 50000

-- What is spent under a key, and whether the cost fits.
unfoldable pub spend :
    ℕ → ℕ → ℕ → Text → ℕ → QuotaBook → QuotaBook × Result GraphqlFailure (Unit {0})
unfolding live_stamps used get put
spend window max now key cost book =
    let stamps = live_stamps window now (or_default [] (get book.hits key)) in
    if ltb max (saturating 64 (used 0 stamps + cost))
    then (record book { hits = put book.hits key stamps }, err quota_failure)
    else (record book { hits = put book.hits key (stamps ++ (now, cost) ∷ []) }, ok tt)

-- Every 256th request drops what is no longer within the window.
unfoldable pub counted : ℕ → ℕ → QuotaBook → QuotaBook
unfolding sweep
counted window sweep_now book =
    let next : QuotaBook = record book { n = (book.n + 1) % 2 ^ 64 } in
    if book.n % 256 == 0 then sweep window sweep_now next else next

unfoldable pub has_room : Text → QuotaBook → Bool
unfolding has
has_room key book = has book.hits key || ltb (len book.hits) quota_max_keys

unfoldable pub consume_quota :
    ℕ → ℕ → Option ℕ → ℕ → Text → ℕ → QuotaBook → QuotaBook × Result GraphqlFailure (Unit {0})
unfolding counted spend has_room
consume_quota sweep_now now none window key cost book = (book, ok tt)
consume_quota sweep_now now (some max) window key cost book =
    if has_room key (counted window sweep_now book)
    then spend window max now key cost (counted window sweep_now book)
    else (counted window sweep_now book, err quota_failure)
