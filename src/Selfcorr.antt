-- ===== src/Selfcorr.antt =====
-- pkg/brainapi/selfcorr.go: the local self-correlation. The floats, sort.Slice and the calendar are
-- arguments.
pub mod Aligned
pub mod Returns
pub mod Ranking
pub mod Ranked
pub mod Local
use brainapi_go_sdk.Prelude.{
  ℕ, zero, suc, ◌+◌, Bool, true, false, not, ◌&&◌, ◌||◌, Option, none, some, List, [], ◌∷◌, ◌++◌,
  Text, is_empty, text_eq, text_lt, length, take, leb, ltb, ◌==◌, if◌then◌else◌, ℤ, pos, leb_ℤ,
  pos_part,
}
use brainapi_go_sdk.Float.{Float64}

abbrev pub corr_trim_years : ℕ
corr_trim_years = 4

abbrev pub min_overlap_days : ℕ
min_overlap_days = 30

abbrev pub corr_top_k : ℕ
corr_top_k = 5

pub record PnLPoint (F : Type 0) : Type 0 where
  pub date : Text
  pub value : F

pub record AlphaPnL (F : Type 0) : Type 0 where
  pub id : Text
  pub records : List (PnLPoint F)

pub record SelfCorrLocalInput (F : Type 0) : Type 0 where
  pub candidate : AlphaPnL F
  pub neighbours : List (AlphaPnL F)

pub record ReturnPoint (F : Type 0) : Type 0 where
  pub date : Text
  pub ret : F

pub record NeighbourReturns (F : Type 0) : Type 0 where
  pub id : Text
  pub returns : List (ReturnPoint F)

pub record CorrNeighbour (F : Type 0) : Type 0 where
  pub id : Text
  pub corr : F
  pub overlap : ℕ

pub record MaxSelfCorrResult (F : Type 0) : Type 0 where
  pub corr_max : F
  pub neighbours : List (CorrNeighbour F)
  pub considered : ℕ
  pub skipped : ℕ

-- sort.Slice by a comparison, and the first day of the window of so many years that ends at a date, where
-- time.Parse reads that date.
pub record Calendar (F : Type 0) : Type 0 where
  pub sort : (PnLPoint F → PnLPoint F → Bool) → List (PnLPoint F) → List (PnLPoint F)
  pub cutoff : Text → ℕ → Option Text

-- The comparison that both sorts are given.
abbrev pub is_earlier : {F : Type 0} → PnLPoint F → PnLPoint F → Bool
is_earlier p q = text_lt p.date q.date

abbrev pub by_date : {F : Type 0} → Calendar F → List (PnLPoint F) → List (PnLPoint F)
by_date cal ps = cal.sort is_earlier ps

module _ {F : Type 0} (fl : Float64 F) where
  unfoldable pub keep_finite : List (PnLPoint F) → List (PnLPoint F)
  keep_finite [] = []
  keep_finite (p ∷ ps) =
      let rest = keep_finite ps in if fl.is_finite p.value then p ∷ rest else rest

  unfoldable pub drop_before : Text → List (PnLPoint F) → List (PnLPoint F)
  drop_before cutoff [] = []
  drop_before cutoff (p ∷ ps) =
      let rest = drop_before cutoff ps in if text_lt p.date cutoff then rest else p ∷ ps

  abbrev last_date : Text → List (PnLPoint F) → Text
  last_date d [] = d
  last_date d (p ∷ ps) = last_date p.date ps

  abbrev from_cutoff : Option Text → List (PnLPoint F) → List (PnLPoint F)
  from_cutoff none clean = clean
  from_cutoff (some cutoff) clean = drop_before cutoff clean

  abbrev trim_sorted : Calendar F → ℕ → List (PnLPoint F) → List (PnLPoint F)
  trim_sorted cal years [] = []
  trim_sorted cal years (p ∷ ps) = from_cutoff (cal.cutoff (last_date p.date ps) years) (p ∷ ps)

  unfoldable pub trim_pnl_to_years : Calendar F → List (PnLPoint F) → ℕ → List (PnLPoint F)
  unfolding keep_finite drop_before
  trim_pnl_to_years cal records years = trim_sorted cal years (by_date cal (keep_finite records))

  -- The second loop of PnLToReturns, from the previous value.
  unfoldable pub returns_from : F → List (PnLPoint F) → List (ReturnPoint F)
  returns_from prev [] = []
  returns_from prev (p ∷ ps) = elim (fl.is_finite p.value) [
    | true ↦ record { date = p.date; ret = fl.sub p.value prev } ∷ returns_from p.value ps
    | false ↦ returns_from prev ps
  ]

  -- The first loop, to the first finite value.
  unfoldable pub seed_returns : List (PnLPoint F) → List (ReturnPoint F)
  unfolding returns_from
  seed_returns [] = []
  seed_returns (p ∷ ps) =
      let rest = seed_returns ps in if fl.is_finite p.value then returns_from p.value ps else rest

  unfoldable pub pnl_to_returns : Calendar F → List (PnLPoint F) → List (ReturnPoint F)
  unfolding seed_returns
  pnl_to_returns cal records =
      if ltb (length records) 2 then [] else seed_returns (by_date cal records)

  abbrev sum_from : F → List F → F
  sum_from s [] = s
  sum_from s (x ∷ xs) = sum_from (fl.add s x) xs

  -- num, varA and varB.
  pub record Moments : Type 0 where
    pub num : F
    pub var_a : F
    pub var_b : F

  abbrev moments : F → F → List F → List F → Moments → Moments
  moments mean_a mean_b (x ∷ xs) (y ∷ ys) m =
      let da = fl.sub x mean_a in
      let db = fl.sub y mean_b in
      moments mean_a mean_b xs ys (record {
        num = fl.mul_add m.num da db;
        var_a = fl.mul_add m.var_a da da;
        var_b = fl.mul_add m.var_b db db;
      })
  moments mean_a mean_b [] ys m = m
  moments mean_a mean_b (x ∷ xs) [] m = m

  -- From the moments on.
  unfoldable pub quotient : Moments → F
  quotient m =
      let r = fl.div m.num (fl.sqrt (fl.mul m.var_a m.var_b)) in
      if fl.is_zero m.var_a || fl.is_zero m.var_b
      then fl.zero_f
      else if fl.is_finite r
      then r
      else fl.zero_f

  unfoldable pub pearson : List F → List F → F
  unfolding quotient
  pearson a b =
      if length a == 0 || not (length a == length b)
      then fl.zero_f
      else quotient (
          moments (fl.div (sum_from fl.zero_f a) (fl.of_int (length a)))
            (fl.div (sum_from fl.zero_f b) (fl.of_int (length a))) a b
            (record { num = fl.zero_f; var_a = fl.zero_f; var_b = fl.zero_f }))

module _ {F : Type 0} where
  -- The loop of alignReturns while its first index stands at x; `next` is the rest behind x.
  unfoldable pub scan_dates :
      ReturnPoint F → (List (ReturnPoint F) → List (F × F)) → List (ReturnPoint F) → List (F × F)
  scan_dates x next [] = []
  scan_dates x next (y ∷ ys) = elim (text_eq x.date y.date) [
    | true ↦ (x.ret, y.ret) ∷ next ys
    | false ↦ elim (text_lt x.date y.date) [ true ↦ next (y ∷ ys) | false ↦ scan_dates x next ys ]
  ]

  -- The loop of alignReturns; a pair stands for an element of av and the one of bv beside it.
  unfoldable pub align_loop : List (ReturnPoint F) → List (ReturnPoint F) → List (F × F)
  unfolding scan_dates
  align_loop [] b = []
  align_loop (x ∷ a) b = scan_dates x (align_loop a) b

  -- `none` is ok=false.
  unfoldable pub align_returns : List (ReturnPoint F) → List (ReturnPoint F) → Option (List (F × F))
  unfolding align_loop
  align_returns a b =
      let found = align_loop a b in if ltb (length found) min_overlap_days then none else some found

  abbrev firsts : List (F × F) → List F
  firsts [] = []
  firsts ((x, y) ∷ ps) = x ∷ firsts ps

  abbrev seconds : List (F × F) → List F
  seconds [] = []
  seconds ((x, y) ∷ ps) = y ∷ seconds ps

module _ {F : Type 0} (fl : Float64 F) where
  -- What one neighbour adds to `all` and `skipped`.
  abbrev pub tally :
      Text → Option (List (F × F)) → List (CorrNeighbour F) × ℕ → List (CorrNeighbour F) × ℕ
  tally id none (all, skipped) = (all, suc skipped)
  tally id (some ps) (all, skipped) = (
    record { id = id; corr = pearson fl (firsts ps) (seconds ps); overlap = length ps } ∷ all,
    skipped,
  )

  -- The loop of MaxSelfCorr.
  unfoldable pub score_all :
      List (ReturnPoint F) → List (NeighbourReturns F) → List (CorrNeighbour F) × ℕ
  unfolding align_returns pearson
  score_all candidate [] = ([], 0)
  score_all candidate (nb ∷ nbs) =
      tally nb.id (align_returns candidate nb.returns) (score_all candidate nbs)

  -- sort.SliceStable with its less function, by insertion: before the first element that is smaller.
  unfoldable pub insert_ranked : CorrNeighbour F → List (CorrNeighbour F) → List (CorrNeighbour F)
  insert_ranked x [] = x ∷ []
  insert_ranked x (y ∷ ys) =
      let rest = insert_ranked x ys in
      if fl.gt (fl.abs y.corr) (fl.abs x.corr) then y ∷ rest else x ∷ (y ∷ ys)

  unfoldable pub rank : List (CorrNeighbour F) → List (CorrNeighbour F)
  unfolding insert_ranked
  rank [] = []
  rank (x ∷ xs) = insert_ranked x (rank xs)

  abbrev pub no_result : ℕ → ℕ → MaxSelfCorrResult F
  no_result considered skipped = record {
    corr_max = fl.zero_f;
    neighbours = [];
    considered = considered;
    skipped = skipped;
  }

  -- The result of the neighbours ranked.
  abbrev pub ranked_result : ℕ → ℕ → ℕ → List (CorrNeighbour F) → MaxSelfCorrResult F
  ranked_result k considered skipped [] = no_result considered skipped
  ranked_result k considered skipped (x ∷ xs) = record {
    corr_max = x.corr;
    neighbours = take k (x ∷ xs);
    considered = considered;
    skipped = skipped;
  }

  abbrev pub top_count : ℤ → ℕ
  top_count top_k = if leb_ℤ top_k (pos 0) then corr_top_k else pos_part top_k

  unfoldable pub max_self_corr :
      List (ReturnPoint F) → List (NeighbourReturns F) → ℤ → MaxSelfCorrResult F
  unfolding score_all rank
  max_self_corr candidate nbs top_k =
      if ltb (length candidate) min_overlap_days || length nbs == 0
      then no_result (length nbs) 0
      else ranked_result (top_count top_k) (length nbs) (score_all candidate nbs).1
          (rank (score_all candidate nbs).0)

  -- The neighbours that are not the candidate, as returns.
  unfoldable pub eligible : Calendar F → Text → List (AlphaPnL F) → List (NeighbourReturns F)
  unfolding pnl_to_returns trim_pnl_to_years
  eligible cal own [] = []
  eligible cal own (nb ∷ nbs) =
      let rest = eligible cal own nbs in
      if not (is_empty own) && text_eq nb.id own
      then rest
      else record {
        id = nb.id;
        returns = pnl_to_returns fl cal (trim_pnl_to_years fl cal nb.records corr_trim_years);
      }
        ∷ rest

  unfoldable pub self_corr_local : Calendar F → SelfCorrLocalInput F → MaxSelfCorrResult F
  unfolding eligible max_self_corr
  self_corr_local cal input =
      max_self_corr
        (pnl_to_returns fl cal (trim_pnl_to_years fl cal input.candidate.records corr_trim_years))
        (eligible cal input.candidate.id input.neighbours) (pos corr_top_k)
