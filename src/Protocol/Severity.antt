-- ===== src/Protocol/Severity.antt =====
-- The verdict of src/protocol.rs is the first of the most severe lines that a request falls under.
use ferroada.Prelude.{
  ℕ, ◌≤◌, ◌<◌, ◌≡◌, ◌⊎◌, inl, inr, List, [], ◌∷◌, ◌++◌, All, some, arith, Bool-cases, ap, leb, refl,
  leb→le, ◌∙◌,
}
use ferroada.Protocol.{
  ProtocolMatrix, RequestFacts, ProtocolVerdict, Match, severity, more_severe, pick_loop,
  pick_most_severe, verdict_of, matches, evaluate,
}

abbrev level : Match → ℕ
level e = severity e.1

-- `e` is the first of the most severe of a list.
abbrev pub IsFirstMostSevere : List Match → Match → Type 0
IsFirstMostSevere es e =
    (before : List Match) × (after : List Match) × (es ≡ before ++ e ∷ after)
    × All (λ f. severity f.1 < severity e.1) before
    × All (λ f. severity f.1 ≤ severity e.1) after

-- The loop from a best one on: it is kept, or replaced by the first most severe that passes it.
pick_loop-from :
    (es : List Match) (best : Match)
    → ((pick_loop (some best) es ≡ some best) × All (λ f. severity f.1 ≤ severity best.1) es)
      ⊎ ((e : Match) × (pick_loop (some best) es ≡ some e)
          × (severity best.1 < severity e.1)
          × IsFirstMostSevere es e)
unfolding pick_loop more_severe
pick_loop-from [] best = inl (refl, tt)
pick_loop-from (e ∷ es) best = elim (Bool-cases (leb (severity e.1) (severity best.1))) [
  | inl kept ↦
      let same : pick_loop (some best) (e ∷ es) ≡ pick_loop (some best) es = ground (arith, kept) in
      let le = leb→le (severity e.1) (severity best.1) kept in
      elim (pick_loop-from es best) [
        | inl (stays, all) ↦ inl (same ∙ stays, (le, all))
        | inr (f, found, more, (before, after, split, lower, upto)) ↦
            let first : severity e.1 < severity f.1 = omega arith in
            inr (f, same ∙ found, more, (e ∷ before, after, ap (◌∷◌ e) split, (first, lower), upto))
      ]
  | inr better ↦
      let next : pick_loop (some best) (e ∷ es) ≡ pick_loop (some e) es = ground (arith, better) in
      let lt : severity best.1 < severity e.1 = ground (arith, better) in
      elim (pick_loop-from es e) [
        | inl (stays, all) ↦ inr (e, next ∙ stays, lt, ([], es, refl, tt, all))
        | inr (f, found, more, (before, after, split, lower, upto)) ↦
            let above : severity best.1 < severity f.1 = omega arith in
            inr (f, next ∙ found, above, (e ∷ before, after, ap (◌∷◌ e) split, (more, lower), upto))
      ]
]

pick_most_severe_lem :
    (es : List Match)
    → ((pick_most_severe es ≡ ProtocolVerdict.inspect) × (es ≡ []))
      ⊎ ((e : Match) × (pick_most_severe es ≡ ProtocolVerdict.unsupported e.0 e.1)
          × IsFirstMostSevere es e)
unfolding pick_most_severe pick_loop more_severe
pick_most_severe_lem [] = inl (refl, refl)
pick_most_severe_lem (best ∷ es) = elim (pick_loop-from es best) [
  | inl (kept, all) ↦ inr (best, ap verdict_of kept, ([], es, refl, tt, all))
  | inr (e, found, more, (before, after, split, lower, upto)) ↦
      inr (e, ap verdict_of found, (best ∷ before, after, ap (◌∷◌ best) split, (more, lower), upto))
]

-- The verdict is `inspect` exactly when no line matches; otherwise it is the first of the most
-- severe lines that match, in the order in which they are tried.
pub evaluate-IsFirstMostSevere :
    (m : ProtocolMatrix) (facts : RequestFacts)
    → ((evaluate m facts ≡ ProtocolVerdict.inspect) × (matches m facts ≡ []))
      ⊎ ((e : Match) × (evaluate m facts ≡ ProtocolVerdict.unsupported e.0 e.1)
          × IsFirstMostSevere (matches m facts) e)
unfolding evaluate
evaluate-IsFirstMostSevere m facts = pick_most_severe_lem (matches m facts)
