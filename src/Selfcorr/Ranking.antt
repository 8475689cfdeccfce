-- ===== src/Selfcorr/Ranking.antt =====
-- Lists of neighbours in the order of MaxSelfCorr.
use brainapi_go_sdk.Prelude.{
  ℕ, zero, suc, ◌≡◌, refl, Bool, true, false, List, [], ◌∷◌, length, take, arith, ◌∙◌, ap,
  if◌then◌else◌, if_elim,
}
use brainapi_go_sdk.Float.{Float64}
use brainapi_go_sdk.Selfcorr.{CorrNeighbour, insert_ranked, rank}

module _ {F : Type 0} (fl : Float64 F) where
  -- A property of every neighbour of a list.
  abbrev pub Each : (CorrNeighbour F → Type 0) → List (CorrNeighbour F) → Type 0
  Each P [] = Unit {0}
  Each P (x ∷ xs) = P x × Each P xs

  module _ (P : CorrNeighbour F → Type 0) where
    pub insert-Each :
        (x : CorrNeighbour F) (ys : List (CorrNeighbour F))
        → P x
        → Each P ys
        → Each P (insert_ranked fl x ys)
    unfolding insert_ranked
    insert-Each x [] p e = (p, tt)
    insert-Each x (y ∷ ys) p e =
        if_elim (Each P) (fl.gt (fl.abs y.corr) (fl.abs x.corr)) _ _
          (λ _. (e.0, insert-Each x ys p e.1)) (λ _. (p, e))

    inserted-Each :
        (x : CorrNeighbour F) (ys : List (CorrNeighbour F))
        → Each P (insert_ranked fl x ys)
        → P x × Each P ys
    unfolding insert_ranked
    inserted-Each x [] = λ e. (e.0, tt)
    inserted-Each x (y ∷ ys) = by_test (fl.gt (fl.abs y.corr) (fl.abs x.corr)) (inserted-Each x ys)
      where
        by_test :
            (b : Bool)
            → (Each P (insert_ranked fl x ys) → P x × Each P ys)
            → Each P (if b then y ∷ insert_ranked fl x ys else x ∷ (y ∷ ys))
            → P x × Each P (y ∷ ys)
        by_test true ih e = ((ih e.1).0, (e.0, (ih e.1).1))
        by_test false ih e = e

    pub rank-Each : (xs : List (CorrNeighbour F)) → Each P xs → Each P (rank fl xs)
    unfolding rank
    rank-Each [] e = tt
    rank-Each (x ∷ xs) e = insert-Each x (rank fl xs) e.0 (rank-Each xs e.1)

    pub ranked-Each : (xs : List (CorrNeighbour F)) → Each P (rank fl xs) → Each P xs
    unfolding rank
    ranked-Each [] e = tt
    ranked-Each (x ∷ xs) e = let s = inserted-Each x (rank fl xs) e in (s.0, ranked-Each xs s.1)

    pub take-Each : (k : ℕ) (xs : List (CorrNeighbour F)) → Each P xs → Each P (take k xs)
    take-Each zero xs e = tt
    take-Each (suc k) [] e = tt
    take-Each (suc k) (x ∷ xs) e = (e.0, take-Each k xs e.1)

  length-insert_ranked :
      (x : CorrNeighbour F) (ys : List (CorrNeighbour F))
      → length (insert_ranked fl x ys) ≡ suc (length ys)
  unfolding insert_ranked
  length-insert_ranked x [] = refl
  length-insert_ranked x (y ∷ ys) = ground (arith, length-insert_ranked x ys)

  pub length-rank : (xs : List (CorrNeighbour F)) → length (rank fl xs) ≡ length xs
  unfolding rank
  length-rank [] = refl
  length-rank (x ∷ xs) = length-insert_ranked x (rank fl xs) ∙ ap suc (length-rank xs)
