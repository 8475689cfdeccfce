-- ===== src/Selfcorr/Local.antt =====
-- The candidate itself among the neighbours of SelfCorrLocal.
use brainapi_go_sdk.Prelude.{
  pos, ℕ, ◌≡◌, false, not, ◌&&◌, ◌||◌, Option, none, some, List, [], ◌∷◌, Text, text_eq, is_empty,
  length, arith, if_elim, ℤ, ltb, ◌==◌,
}
use brainapi_go_sdk.Float.{Float64}
use brainapi_go_sdk.Selfcorr.{
  ReturnPoint, NeighbourReturns, CorrNeighbour, MaxSelfCorrResult, AlphaPnL, SelfCorrLocalInput,
  Calendar, corr_top_k, tally, score_all, ranked_result, top_count, max_self_corr, eligible,
  self_corr_local, align_returns,
}
use brainapi_go_sdk.Selfcorr.Ranking.{Each, rank-Each, take-Each}

module _ {F : Type 0} (fl : Float64 F) (own : Text) where
  -- Not the candidate.
  abbrev pub IsOther : CorrNeighbour F → Type 0
  IsOther x = text_eq x.id own ≡ false

  abbrev AreOthers : List (NeighbourReturns F) → Type 0
  AreOthers [] = Unit {0}
  AreOthers (nb ∷ nbs) = (text_eq nb.id own ≡ false) × AreOthers nbs

  eligible-AreOthers :
      (cal : Calendar F) (nbs : List (AlphaPnL F))
      → is_empty own ≡ false
      → AreOthers (eligible fl cal own nbs)
  unfolding eligible
  eligible-AreOthers cal [] h = tt
  eligible-AreOthers cal (nb ∷ nbs) h =
      if_elim AreOthers (not (is_empty own) && text_eq nb.id own) _ _
        (λ _. eligible-AreOthers cal nbs h) (λ n. (ground arith, eligible-AreOthers cal nbs h))

  tally-Each :
      (id : Text) (ps : Option (List (F × F))) (acc : List (CorrNeighbour F) × ℕ)
      → text_eq id own ≡ false
      → Each fl IsOther acc.0
      → Each fl IsOther (tally fl id ps acc).0
  tally-Each id none (all, skipped) h e = e
  tally-Each id (some ps) (all, skipped) h e = (h, e)

  score_all-Each :
      (c : List (ReturnPoint F)) (nbs : List (NeighbourReturns F))
      → AreOthers nbs
      → Each fl IsOther (score_all fl c nbs).0
  unfolding score_all
  score_all-Each c [] h = tt
  score_all-Each c (nb ∷ nbs) h =
      tally-Each nb.id (align_returns c nb.returns) (score_all fl c nbs) h.0
        (score_all-Each c nbs h.1)

  shown-Each :
      (k considered skipped : ℕ) (xs : List (CorrNeighbour F))
      → Each fl IsOther xs
      → Each fl IsOther (ranked_result fl k considered skipped xs).neighbours
  shown-Each k considered skipped [] e = tt
  shown-Each k considered skipped (x ∷ xs) e = take-Each fl IsOther k (x ∷ xs) e

  max_self_corr-Each :
      (c : List (ReturnPoint F)) (nbs : List (NeighbourReturns F)) (top_k : ℤ)
      → AreOthers nbs
      → Each fl IsOther (max_self_corr fl c nbs top_k).neighbours
  unfolding max_self_corr
  max_self_corr-Each c nbs top_k h =
      if_elim (λ (r : MaxSelfCorrResult F). Each fl IsOther r.neighbours)
        (ltb (length c) 30 || length nbs == 0) _ _ (λ _. tt)
        (λ _.
          shown-Each (top_count fl top_k) _ _ _
            (rank-Each fl IsOther (score_all fl c nbs).0 (score_all-Each c nbs h)))

-- SelfCorrLocal shows no neighbour with the id of the candidate, where the candidate has an id.
pub self_corr_local-Each :
    {F : Type 0} (fl : Float64 F) (cal : Calendar F) (input : SelfCorrLocalInput F)
    → is_empty input.candidate.id ≡ false
    → Each fl (IsOther fl input.candidate.id) (self_corr_local fl cal input).neighbours
unfolding self_corr_local
self_corr_local-Each fl cal input h =
    max_self_corr-Each fl input.candidate.id _ _ (pos corr_top_k)
      (eligible-AreOthers fl input.candidate.id cal input.neighbours h)
