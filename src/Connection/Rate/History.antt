-- ===== src/Connection/Rate/History.antt =====
-- The filter of src/connection.rs against the history of the connections that it accepted.
pub mod Reached
pub mod Decisions
use ferroada.Prelude.{
  ℕ, ◌+◌, ◌≤◌, ◌<◌, ◌≡◌, List, [], ◌∷◌, length, Bool, true, false, arith, All, if◌then◌else◌, ◌∙◌,
  ◌++◌, All-append, if_both, ◌%◌, subst, leb, ◌^◌, sym, ◌==◌, refl,
}
use ferroada.Net.{IpAddr, ip_eq, same_ip, same_ip_iff}
use ferroada.Window.{recent, drop_expired}
use ferroada.Connection.Rate.{
  ConnectionRateFilter, new, evict_expired, count_check, admit, check, keep_live,
}
use ferroada.Connection.Rate.Bounds.{queue}
use ferroada.DashMap.{or_default, get, put}
use ferroada.Window.Laws.{
  IsOrdered, All-le_trans, recent-drop_expired, drop_expired-All, drop_expired-IsOrdered,
  recent-append, push_back-IsOrdered,
}
use ferroada.DashMap.Laws.{and_then, get-put, IsUnique, get-retain, retain-IsUnique, put-IsUnique}

-- An accepted attempt: who, and when.
abbrev pub History : Type 0
History = List (IpAddr × ℕ)

pub times : IpAddr → History → List ℕ
times ip [] = []
times ip ((j, t) ∷ h) = let rest = times ip h in if same_ip j ip then t ∷ rest else rest

pub all_times : History → List ℕ
all_times [] = []
all_times ((j, t) ∷ h) = t ∷ all_times h

-- From `now` on, a queue counts what the history counts.
abbrev pub IsCounting : ℕ → ℕ → List ℕ → List ℕ → Type 0
IsCounting window now q hist = (t : ℕ) → now ≤ t → recent window t q ≡ recent window t hist

-- A queue that counts a history in every window that ends at `since` or later, oldest first and none
-- of it after `last`.
pub record IsQueueOf (window since last : ℕ) (hist q : List ℕ) : Type 0 where
  pub counting : IsCounting window since q hist
  pub past : All (λ t. t ≤ last) q
  pub ordered : IsOrdered q

pub record IsTracking (since last : ℕ) (h : History) (f : ConnectionRateFilter) : Type 0 where
  pub unique : IsUnique f.attempts
  pub ips : (ip : IpAddr) → IsQueueOf f.window since last (times ip h) (queue f ip)
  pub global : IsQueueOf f.window since last (all_times h) f.global_attempts

later-IsQueueOf :
    {window since last : ℕ} {hist q : List ℕ} (s l : ℕ)
    → since ≤ s
    → last ≤ l
    → IsQueueOf window since last hist q
    → IsQueueOf window s l hist q
later-IsQueueOf {q = q} s l le ll k = record {
  counting = λ u h. k.counting u (omega arith);
  past = All-le_trans q _ l ll k.past;
  ordered = k.ordered;
}

dropped-IsQueueOf :
    {window since last : ℕ} {hist q : List ℕ} (now : ℕ)
    → now ≤ since
    → IsQueueOf window since last hist q
    → IsQueueOf window since last hist (drop_expired window now q)
dropped-IsQueueOf {window} {since} {last} {hist} {q} now le k = record {
  counting = λ t h. recent-drop_expired window now t q (omega arith) ∙ k.counting t h;
  past = drop_expired-All _ window now q k.past;
  ordered = drop_expired-IsOrdered window now q k.ordered;
}

pushed-IsQueueOf :
    {window since now : ℕ} {hist q : List ℕ}
    → IsQueueOf window since now hist q
    → IsQueueOf window since now (now ∷ hist) (q ++ now ∷ [])
unfolding recent
pushed-IsQueueOf {window} {since} {now} {hist} {q} k = record {
  counting =
      λ t h. let same = k.counting t h in ground (arith, recent-append window t q (now ∷ []));
  past = All-append _ q (now ∷ []) k.past (omega arith, tt);
  ordered = push_back-IsOrdered q now k.past k.ordered;
}

pub queue-evict_expired :
    (now : ℕ) (f : ConnectionRateFilter) (ip : IpAddr)
    → IsUnique f.attempts
    → queue (evict_expired now f) ip ≡ drop_expired f.window now (queue f ip)
unfolding evict_expired keep_live drop_expired
queue-evict_expired now f ip u = ground (arith, get-retain (keep_live f.window now) f.attempts ip u)

-- Reading a queue after another one was written.
queue-put :
    (f : ConnectionRateFilter) (ip j : IpAddr) (q : List ℕ)
    → or_default [] (get (put f.attempts ip q) j) ≡ (if same_ip ip j then q else queue f j)
queue-put f ip j q = ground (arith, get-put f.attempts ip j q)

later-IsTracking :
    {since last : ℕ} {h : History} {f : ConnectionRateFilter} (s l : ℕ)
    → since ≤ s
    → last ≤ l
    → IsTracking since last h f
    → IsTracking s l h f
later-IsTracking s l le ll k = record {
  unique = k.unique;
  ips = λ ip. later-IsQueueOf s l le ll (k.ips ip);
  global = later-IsQueueOf s l le ll k.global;
}

evict_expired-IsTracking :
    {since last : ℕ} {h : History} {f : ConnectionRateFilter} (now : ℕ)
    → now ≤ since
    → IsTracking since last h f
    → IsTracking since last h (evict_expired now f)
unfolding evict_expired
evict_expired-IsTracking {since} {last} {h} {f} now le k = record {
  unique = retain-IsUnique _ f.attempts k.unique;
  ips = λ ip.
      subst (IsQueueOf f.window since last (times ip h))
        (sym (queue-evict_expired now f ip k.unique)) (dropped-IsQueueOf now le (k.ips ip));
  global = k.global;
}

pub count_check-IsTracking :
    {since last : ℕ} {h : History} {f : ConnectionRateFilter} (sweep : ℕ)
    → sweep ≤ since
    → IsTracking since last h f
    → IsTracking since last h (count_check sweep f)
unfolding count_check
count_check-IsTracking {since} {last} {h} {f} sweep le k =
    let counted = record f { checks = (f.checks + 1) % 2 ^ 64 } in
    let c : IsTracking since last h counted = record {
      unique = k.unique;
      ips = k.ips;
      global = k.global;
    } in
    if_both (IsTracking since last h) (f.checks % 256 == 0)
      (λ _. evict_expired-IsTracking {f = counted} sweep le c) (λ _. c)

-- What the history becomes.
abbrev pub record_attempt : Bool → IpAddr → ℕ → History → History
record_attempt true ip now h = (ip, now) ∷ h
record_attempt false ip now h = h

put-IsTracking :
    {since now : ℕ} {h h' : History} {f : ConnectionRateFilter} (ip : IpAddr) (q g : List ℕ)
    → IsTracking since now h f
    → ((j : IpAddr) → same_ip ip j ≡ false → times j h' ≡ times j h)
    → IsQueueOf f.window since now (times ip h') q
    → IsQueueOf f.window since now (all_times h') g
    → IsTracking since now h' (record f { attempts = put f.attempts ip q; global_attempts = g })
put-IsTracking {since} {now} {h} {h'} {f} ip q g k others mine global = record {
  unique = put-IsUnique f.attempts ip q k.unique;
  ips = λ j. subst (IsQueueOf f.window since now (times j h')) (sym (queue-put f ip j q)) (
      if_both (IsQueueOf f.window since now (times j h')) (same_ip ip j)
        (λ same.
          let e : ip ≡ j = (same_ip_iff ip j).0 same in
          subst (λ i. IsQueueOf f.window since now (times i h') q) e mine)
        (λ other.
          subst (λ hist. IsQueueOf f.window since now hist (queue f j)) (sym (others j other))
            (k.ips j)));
  global = global;
}

pub admit-IsTracking :
    {since now : ℕ} {h : History} {f : ConnectionRateFilter} (ip : IpAddr)
    → now ≤ since
    → IsTracking since now h f
    → IsTracking since now (record_attempt (admit now ip f).1 ip now h) (admit now ip f).0
unfolding admit times all_times
admit-IsTracking {since} {now} {h} {f} ip le k =
    let q = drop_expired f.window now (queue f ip) in
    let dropped = dropped-IsQueueOf now le (k.ips ip) in
    if_both
      (λ (r : ConnectionRateFilter × Bool). IsTracking since now (record_attempt r.1 ip now h) r.0)
      (leb f.max_attempts (length q))
      (λ _. put-IsTracking {f = f} ip q f.global_attempts k (λ j _. refl) dropped k.global)
      (λ _.
        put-IsTracking {f = f} ip (q ++ now ∷ []) (f.global_attempts ++ now ∷ []) k
          (λ j other. ground (arith, other))
          (subst (λ hist. IsQueueOf f.window since now hist (q ++ now ∷ []))
            (let me = (same_ip_iff ip ip).1 refl in ground (arith, me)) (pushed-IsQueueOf dropped))
          (pushed-IsQueueOf k.global))
