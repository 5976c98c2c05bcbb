-- ===== src/Origin/Picking.antt =====
-- What the choice of an origin in src/origin.rs finds: it goes round all of a site's origins.
use ferroada.Prelude.{
  ℕ, suc, ◌+◌, ◌%◌, ◌^◌, ◌≤◌, ◌<◌, List, [], ◌∷◌, length, get_or, Bool, true, false, not, ◌&&◌,
  ◌||◌, Option, none, some, ◌≡◌, inl, inr, refl, sym, ap, ◌∙◌, subst, arith, Bool-cases,
  Option-cases, All,
}
use ferroada.Net.{SocketAddr, addr_eq}
use ferroada.DashMap.{get}
use ferroada.Origin.{
  OriginEndpoint, SitePool, is_tried, is_down, can_send, candidates, try_each, pick_origin,
  circuit_of, put_circuit, canonical_addr,
}
use ferroada.Origin.Circuit.{CircuitBreaker}
use ferroada.DashMap.Laws.{put-get_self}
use ferroada.Origin.Round.{All-candidates, candidate_at}
use ferroada.Origin.Circuit

-- Not tried, not down, and its circuit lets a request through.
abbrev pub is_ready : ℕ → List SocketAddr → SitePool → OriginEndpoint → Bool
is_ready now tried p o =
    not (is_tried tried o.addr || is_down p o.addr) && (can_send now o.addr p).1

-- A circuit that refuses is left as it is.
refused :
    (now : ℕ) (c : CircuitBreaker)
    → (Circuit.can_send now c).1 ≡ false
    → (Circuit.can_send now c).0 ≡ c
unfolding Circuit.can_send
refused now c h = ground (arith, h)

new_sends : (now : ℕ) → (Circuit.can_send now Circuit.new).1 ≡ true
unfolding Circuit.can_send Circuit.new Circuit.with_open_for
new_sends now = refl

can_send-refused :
    (now : ℕ) (addr : SocketAddr) (p : SitePool)
    → (can_send now addr p).1 ≡ false
    → (can_send now addr p).0 ≡ p
unfolding can_send circuit_of put_circuit
can_send-refused now addr p h = elim (Option-cases (get p.circuits (canonical_addr addr))) [
  | inl absent ↦ absurd (ground (arith, h, absent, new_sends now))
  | inr (c, there) ↦
      let same : circuit_of p addr ≡ c = ground (arith, there) in
      let kept = refused now c (subst (λ x. (Circuit.can_send now x).1 ≡ false) same h) in
      ap (λ x. put_circuit addr (Circuit.can_send now x).0 p) same
      ∙ ap (λ x. put_circuit addr x p) kept
      ∙ ap (λ m. record p { circuits = m }) (put-get_self p.circuits (canonical_addr addr) c there)
]

-- The one that is chosen is in the list and ready at the reading of the clock of its step; where none
-- is, each was not ready at such a reading.
abbrev pub IsChosen :
    (ℕ → ℕ) → List SocketAddr → SitePool → List OriginEndpoint → Option OriginEndpoint → Type 0
IsChosen clock tried p os none = All (λ o. (k : ℕ) × (is_ready (clock k) tried p o ≡ false)) os
IsChosen clock tried p os (some o) =
    (i : ℕ) × (i < length os)
    × (get_or os i o ≡ o)
    × ((k : ℕ) × (is_ready (clock k) tried p o ≡ true))

-- The readings from the second step on are readings of the round.
earlier :
    (clock : ℕ → ℕ) (tried : List SocketAddr) (p : SitePool) (os : List OriginEndpoint)
    → All (λ o. (k : ℕ) × (is_ready (clock (suc k)) tried p o ≡ false)) os
    → All (λ o. (k : ℕ) × (is_ready (clock k) tried p o ≡ false)) os
earlier clock tried p [] h = tt
earlier clock tried p (o ∷ os) h = ((suc h.0.0, h.0.1), earlier clock tried p os h.1)

later :
    (clock : ℕ → ℕ) (tried : List SocketAddr) (p : SitePool) (o : OriginEndpoint)
    (os : List OriginEndpoint) (r : Option OriginEndpoint)
    → is_ready (clock 0) tried p o ≡ false
    → IsChosen (λ k. clock (suc k)) tried p os r
    → IsChosen clock tried p (o ∷ os) r
later clock tried p o os none e h = ((0, e), earlier clock tried p os h)
later clock tried p o os (some c) e (i, lt, there, (k, ready)) =
    (suc i, omega arith, there, (suc k, ready))

try_each-IsChosen :
    (clock : ℕ → ℕ) (tried : List SocketAddr) (os : List OriginEndpoint) (p : SitePool)
    → IsChosen clock tried p os (try_each clock tried os p).1
unfolding try_each
try_each-IsChosen clock tried [] p = tt
try_each-IsChosen clock tried (o ∷ os) p =
    let onward : ℕ → ℕ = λ k. clock (suc k) in
    elim (Bool-cases (is_tried tried o.addr || is_down p o.addr)) [
      | inl out ↦
          let e : (try_each clock tried (o ∷ os) p).1 ≡ (try_each onward tried os p).1 =
            ground (arith, out) in
          let unready : is_ready (clock 0) tried p o ≡ false = ground (arith, out) in
          subst (IsChosen clock tried p (o ∷ os)) (sym e) (
            later clock tried p o os (try_each onward tried os p).1 unready
              (try_each-IsChosen onward tried os p))
      | inr in_reach ↦ elim (Bool-cases (can_send (clock 0) o.addr p).1) [
        | inl sends ↦
            let e : (try_each clock tried (o ∷ os) p).1 ≡ some o =
              ground (arith, in_reach, sends) in
            subst (IsChosen clock tried p (o ∷ os)) (sym e)
              (0, omega arith, refl, (0, ground (arith, in_reach, sends)))
        | inr refuses ↦
            let same = can_send-refused (clock 0) o.addr p refuses in
            let step : (try_each clock tried (o ∷ os) p).1
                ≡ (try_each onward tried os (can_send (clock 0) o.addr p).0).1 =
              ground (arith, in_reach, refuses) in
            let e = step ∙ ap (λ q. (try_each onward tried os q).1) same in
            let unready : is_ready (clock 0) tried p o ≡ false =
              ground (arith, in_reach, refuses) in
            subst (IsChosen clock tried p (o ∷ os)) (sym e) (
              later clock tried p o os (try_each onward tried os p).1 unready
                (try_each-IsChosen onward tried os p))
      ]
    ]

from_candidates :
    (clock : ℕ → ℕ) (tried : List SocketAddr) (p : SitePool) (origins : List OriginEndpoint)
    (d : OriginEndpoint) (r : Option OriginEndpoint)
    → p.cursor + length origins ≤ 2 ^ 64
    → 0 < length origins
    → IsChosen clock tried p (candidates origins d p.cursor 0 (length origins)) r
    → IsChosen clock tried p origins r
from_candidates clock tried p origins d none room pos h =
    All-candidates (λ o. (k : ℕ) × (is_ready (clock k) tried p o ≡ false)) origins d p.cursor room h
from_candidates clock tried p origins d (some o) room pos (i, lt, there, ready) =
    let c = candidate_at origins d o o p.cursor i pos lt there in (c.0, c.1, c.2, ready)

-- The cursor is not asked.
moved :
    (clock : ℕ → ℕ) (tried : List SocketAddr) (p : SitePool) (c : ℕ) (os : List OriginEndpoint)
    (r : Option OriginEndpoint)
    → IsChosen clock tried (record p { cursor = c }) os r
    → IsChosen clock tried p os r
unfolding is_down can_send circuit_of
moved clock tried p c os none h = h
moved clock tried p c os (some o) h = h

-- As long as the cursor does not wrap within the round, the origin that is picked is one of the site's
-- that is not tried, not down and whose circuit lets a request through; and when none is picked, none
-- of the site's origins is like that. The clock is read anew for each origin, and this is at one of
-- those readings.
pub pick_origin-IsChosen :
    (clock : ℕ → ℕ) (tried : List SocketAddr) (origins : List OriginEndpoint) (p : SitePool)
    → p.cursor + length origins ≤ 2 ^ 64
    → IsChosen clock tried p origins (pick_origin clock tried origins p).1
unfolding pick_origin
pick_origin-IsChosen clock tried [] p room = tt
pick_origin-IsChosen clock tried (o ∷ os) p room =
    let q : SitePool = record p { cursor = (p.cursor + 1) % 2 ^ 64 } in
    let tries = candidates (o ∷ os) o p.cursor 0 (length (o ∷ os)) in
    from_candidates clock tried p (o ∷ os) o (try_each clock tried tries q).1 room (omega arith) (
      moved clock tried p ((p.cursor + 1) % 2 ^ 64) tries (try_each clock tried tries q).1
        (try_each-IsChosen clock tried tries q))
