-- ===== src/Origin/Tests.antt =====
-- A site of two origins, the first of which has failed.
use ferroada.Prelude.{
  ◌≡◌, refl, [], ◌∷◌, none, some, false, arith, ◌<◌, ◌+◌, ◌^◌, ◌≤◌, if◌then◌else◌,
}
use ferroada.Text.{text}
use ferroada.Net.{SocketAddr}
use ferroada.Origin.{OriginEndpoint, SitePool, Backend, failed, pick_origin, put_circuit}
use ferroada.Origin.Picking.{IsChosen, pick_origin-IsChosen}
use ferroada.Origin.Circuit.{
  granted, new, on_failure, with_open_for, has_elapsed, granted-on_failure,
}
use ferroada.DashMap.{get, put, has}

abbrev first : OriginEndpoint
first = record { addr = SocketAddr.v4 0x0A000001 80; host = text "a"; tls = false }

abbrev second : OriginEndpoint
second = record { addr = SocketAddr.v4 0x0A000002 80; host = text "b"; tls = false }

abbrev fresh : SitePool
fresh = record { circuits = []; down = []; cursor = 0; mtls = none }

abbrev after : SitePool
after = failed 7 (SocketAddr.v4 0x0A000001 80) fresh

room : after.cursor + 2 ≤ 2 ^ 64
unfolding failed put_circuit
room = omega arith

picks_other : (pick_origin (λ k. 9 + k) [] (first ∷ second ∷ []) after).1 ≡ some second
unfolding pick_origin failed put_circuit get put has ferroada.Origin.Circuit.can_send new
picks_other = refl

pick_origin-IsChosen_example :
    IsChosen
      (λ k. 9 + k)
      []
      after
      (first ∷ second ∷ [])
      (pick_origin (λ k. 9 + k) [] (first ∷ second ∷ []) after).1
pick_origin-IsChosen_example = pick_origin-IsChosen (λ k. 9 + k) [] (first ∷ second ∷ []) after room

counted : new.consecutive_failures + 1 < 2 ^ 32
unfolding new with_open_for
counted = omega arith

granted-on_failure_example :
    granted (3 ∷ 5000000008 ∷ 5000000009 ∷ []) (on_failure 7 new)
    ≡ (if has_elapsed (new.open_for) 7 (3 ∷ 5000000008 ∷ 5000000009 ∷ []) then 1 else 0)
granted-on_failure_example = granted-on_failure 7 (3 ∷ 5000000008 ∷ 5000000009 ∷ []) new counted
