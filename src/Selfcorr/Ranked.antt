-- ===== src/Selfcorr/Ranked.antt =====
-- What MaxSelfCorr reports.
use brainapi_go_sdk.Prelude.{
  ℕ, suc, ◌+◌, min, ◌≡◌, ◌≤◌, refl, true, false, not, ◌||◌, Option, none, some, List, [], ◌∷◌, Text,
  length, length-take, ltb, ◌==◌, arith, ◌∙◌, ap, if_elim, ℤ,
}
use brainapi_go_sdk.Float.{Float64, IsOrdered}
use brainapi_go_sdk.Selfcorr.{
  ReturnPoint, NeighbourReturns, CorrNeighbour, MaxSelfCorrResult, Moments, quotient, pearson,
  tally, score_all, insert_ranked, rank, no_result, ranked_result, top_count, max_self_corr,
  align_returns,
}
use brainapi_go_sdk.Selfcorr.Ranking.{Each, insert-Each, rank-Each, ranked-Each, length-rank}

module _ {F : Type 0} (fl : Float64 F) where
  -- No stronger than m.
  abbrev pub IsWeaker : F → CorrNeighbour F → Type 0
  IsWeaker m x = fl.gt (fl.abs x.corr) (fl.abs m) ≡ false

  abbrev HasFiniteCorr : CorrNeighbour F → Type 0
  HasFiniteCorr x = fl.is_finite x.corr ≡ true

  -- The first of a list is the strongest.
  abbrev IsLed : List (CorrNeighbour F) → Type 0
  IsLed [] = Unit {0}
  IsLed (x ∷ xs) = Each fl (IsWeaker x.corr) xs

  module _ (o : IsOrdered fl) where
    IsWeaker-trans :
        (m : F) (y : CorrNeighbour F) (ys : List (CorrNeighbour F))
        → HasFiniteCorr y
        → IsWeaker m y
        → Each fl (IsWeaker y.corr) ys
        → Each fl (IsWeaker m) ys
    IsWeaker-trans m y [] f w e = tt
    IsWeaker-trans m y (z ∷ zs) f w e = (
      o.gt_negtrans (fl.abs z.corr) (fl.abs y.corr) (fl.abs m) (o.abs_finite y.corr f) e.0 w,
      IsWeaker-trans m y zs f w e.1,
    )

    insert-IsLed :
        (x : CorrNeighbour F) (ys : List (CorrNeighbour F))
        → Each fl HasFiniteCorr ys
        → IsLed ys
        → IsLed (insert_ranked fl x ys)
    unfolding insert_ranked
    insert-IsLed x [] f l = tt
    insert-IsLed x (y ∷ ys) f l =
        if_elim IsLed (fl.gt (fl.abs y.corr) (fl.abs x.corr)) _ _
          (λ g.
            insert-Each fl (IsWeaker y.corr) x ys (o.gt_asym (fl.abs y.corr) (fl.abs x.corr) g) l)
          (λ n. (n, IsWeaker-trans x.corr y ys f.0 n l))

    rank-IsLed : (xs : List (CorrNeighbour F)) → Each fl HasFiniteCorr xs → IsLed (rank fl xs)
    unfolding rank
    rank-IsLed [] f = tt
    rank-IsLed (x ∷ xs) f =
        insert-IsLed x (rank fl xs) (rank-Each fl HasFiniteCorr xs f.1) (rank-IsLed xs f.1)

    gt_irrefl : (x : F) → fl.gt x x ≡ false
    gt_irrefl x = ground (arith, o.gt_asym x x)

    quotient_finite : (m : Moments fl) → fl.is_finite (quotient fl m) ≡ true
    unfolding quotient
    quotient_finite m =
        if_elim (λ x. fl.is_finite x ≡ true) (fl.is_zero m.var_a || fl.is_zero m.var_b) _ _
          (λ _. o.zero_finite)
          (λ _.
            if_elim (λ x. fl.is_finite x ≡ true)
              (fl.is_finite (fl.div m.num (fl.sqrt (fl.mul m.var_a m.var_b)))) _ _ (λ f. f)
              (λ _. o.zero_finite))

    pearson_finite : (a b : List F) → fl.is_finite (pearson fl a b) ≡ true
    unfolding pearson
    pearson_finite a b =
        if_elim (λ x. fl.is_finite x ≡ true) (length a == 0 || not (length a == length b)) _ _
          (λ _. o.zero_finite) (λ _. quotient_finite _)

    tally-finite :
        (id : Text) (ps : Option (List (F × F))) (acc : List (CorrNeighbour F) × ℕ)
        → Each fl HasFiniteCorr acc.0
        → Each fl HasFiniteCorr (tally fl id ps acc).0
    tally-finite id none (all, skipped) f = f
    tally-finite id (some ps) (all, skipped) f = (pearson_finite _ _, f)

    score_all-finite :
        (c : List (ReturnPoint F)) (nbs : List (NeighbourReturns F))
        → Each fl HasFiniteCorr (score_all fl c nbs).0
    unfolding score_all
    score_all-finite c [] = tt
    score_all-finite c (nb ∷ nbs) =
        tally-finite nb.id _ (score_all fl c nbs) (score_all-finite c nbs)

  tally-counts :
      (id : Text) (ps : Option (List (F × F))) (acc : List (CorrNeighbour F) × ℕ)
      → (tally fl id ps acc).1 + length (tally fl id ps acc).0 ≡ suc (acc.1 + length acc.0)
  tally-counts id none (all, skipped) = omega arith
  tally-counts id (some ps) (all, skipped) = omega arith

  score_all-counts :
      (c : List (ReturnPoint F)) (nbs : List (NeighbourReturns F))
      → (score_all fl c nbs).1 + length (score_all fl c nbs).0 ≡ length nbs
  unfolding score_all
  score_all-counts c [] = omega arith
  score_all-counts c (nb ∷ nbs) =
      tally-counts nb.id (align_returns c nb.returns) (score_all fl c nbs)
      ∙ ap suc (score_all-counts c nbs)

  -- What a result tells of the neighbours that were scored.
  pub record IsReport (k considered : ℕ) (scored : List (CorrNeighbour F)) (r : MaxSelfCorrResult F)
      : Type 0 where
    pub all_considered : r.considered ≡ considered
    pub all_counted : r.skipped + length scored ≡ considered
    pub shown : length r.neighbours ≡ min k (length scored)
    pub strongest : Each fl (IsWeaker r.corr_max) scored

  module _ (o : IsOrdered fl) (k considered skipped : ℕ) where
    led-IsReport :
        (scored : List (CorrNeighbour F)) (ranked : List (CorrNeighbour F))
        → skipped + length scored ≡ considered
        → length ranked ≡ length scored
        → IsLed ranked
        → ((P : CorrNeighbour F → Type 0) → Each fl P ranked → Each fl P scored)
        → IsReport k considered scored (ranked_result fl k considered skipped ranked)
    led-IsReport scored [] c l h t = record {
      all_considered = refl;
      all_counted = c;
      shown = omega arith;
      strongest = t _ tt;
    }
    led-IsReport scored (x ∷ xs) c l h t = record {
      all_considered = refl;
      all_counted = c;
      shown = length-take k (x ∷ xs) ∙ ap (min k) l;
      strongest = t (IsWeaker x.corr) (gt_irrefl o (fl.abs x.corr), h);
    }

  module _ (o : IsOrdered fl) (candidate : List (ReturnPoint F)) where
    scored-IsReport :
        (nbs : List (NeighbourReturns F)) (k : ℕ)
        → IsReport k (length nbs) (score_all fl candidate nbs).0 (
            ranked_result fl k
              (length nbs)
              (score_all fl candidate nbs).1
              (rank fl (score_all fl candidate nbs).0))
    scored-IsReport nbs k =
        let scored = (score_all fl candidate nbs).0 in
        led-IsReport o k (length nbs) (score_all fl candidate nbs).1 scored (rank fl scored)
          (score_all-counts candidate nbs) (length-rank fl scored)
          (rank-IsLed o scored (score_all-finite o candidate nbs)) (λ P. ranked-Each fl P scored)

    none-IsReport :
        (nbs : List (NeighbourReturns F)) (k : ℕ)
        → length nbs ≡ 0
        → IsReport k (length nbs) (score_all fl candidate nbs).0 (no_result fl (length nbs) 0)
    unfolding score_all
    none-IsReport [] k h = record {
      all_considered = refl;
      all_counted = omega arith;
      shown = omega arith;
      strongest = tt;
    }
    none-IsReport (nb ∷ nbs) k h = absurd (omega arith)

    -- For a candidate with at least 30 returns MaxSelfCorr counts each neighbour as considered,
    -- and as scored or skipped; it shows as many of the scored as there are, up to topK or its
    -- default; and no scored neighbour has a correlation of a larger absolute value than the one
    -- reported. The comparison of floats is that of IEEE 754.
    pub max_self_corr-IsReport :
        (nbs : List (NeighbourReturns F)) (top_k : ℤ)
        → 30 ≤ length candidate
        → IsReport
            (top_count fl top_k)
            (length nbs)
            (score_all fl candidate nbs).0
            (max_self_corr fl candidate nbs top_k)
    unfolding max_self_corr
    max_self_corr-IsReport nbs top_k h =
        if_elim (IsReport (top_count fl top_k) (length nbs) (score_all fl candidate nbs).0)
          (ltb (length candidate) 30 || length nbs == 0) _ _
          (λ t. none-IsReport nbs (top_count fl top_k) (ground arith))
          (λ _. scored-IsReport nbs (top_count fl top_k))
