-- ===== src/Scorers/CostGuard.antt =====
-- pkg/framework/plugins/modelselector/scorer/costguard/plugin.go: the scorer that minimises the
-- cost and the risk of an expensive tail. A digest is caio/go-tdigest's; `as_digest` is the
-- assertion of an attribute to it. The model's position among the candidates stands for the key of
-- the map of scores.
pub mod Exploring
use llm_d_inference_payload.Prelude.{
  Bytes, codes, Float64, ℕ, zero, suc, ◌+◌, ◌-◌, ◌/◌, ◌%◌, ◌==◌, ltb, length, set, get_elem?, map,
  Bool, true, false, ◌||◌, List, [], ◌∷◌, ◌++◌, Option, none, some, is_empty, if◌then◌else◌,
}
use llm_d_inference_payload.DataLayer.{Model, Attribute}
use llm_d_inference_payload.DataLayer.Attributes.{read_attribute_key}
use llm_d_inference_payload.Errors.{Result, ok, err, panic, plain}

-- what the scorer uses of a digest, of package math, and of the sort of floats
pub record Digests (F : Type 0) : Type 1 where
  pub Digest : Type 0
  pub count : Digest → ℕ
  pub trimmed_mean : Digest → F → F → F
  pub as_digest : Attribute F → Option Digest
  pub mismatch : Attribute F → Bytes
  pub exp : F → F
  pub sqrt : F → F
  pub ceil : F → ℕ
  pub is_zero : F → Bool
  -- `a <= b`
  pub le : F → F → Bool
  pub sort : List F → List F
  -- 0.5, 1.96 and 2
  pub half : F
  pub z95 : F
  pub two : F

-- `Config`
pub record CostGuardConfig (F : Type 0) : Type 0 where
  pub epsilon : F
  pub alpha : F
  pub lambda : F
  pub percentile_margin_error : F

-- `CostGuardScorer`
pub record CostGuardScorer (F : Type 0) : Type 0 where
  pub epsilon : F
  pub alpha : F
  pub lambda : F
  pub sample_threshold : ℕ

-- the text of a parameter out of range, around its rendering
abbrev pub out_of_range : Bytes → Bytes → Bytes → Bytes
out_of_range name range rendered =
    codes "costguard \"" ++ (name ++ (codes "\": " ++ (range ++ (codes ", got " ++ rendered))))

module _ ⦃N : Float64⦄ (D : Digests N.F) where
  unfoldable pub new_cost_guard_scorer : CostGuardConfig N.F → CostGuardScorer N.F
  new_cost_guard_scorer c = record {
    epsilon = c.epsilon;
    alpha = c.alpha;
    lambda = c.lambda;
    sample_threshold = D.ceil (
        N.div (N.mul (N.mul (N.mul D.z95 D.z95) c.alpha) (N.sub N.one_f c.alpha))
          (N.mul c.percentile_margin_error c.percentile_margin_error));
  }

  -- the checks of `ScorerFactory`; `render` is the verb `%f`
  unfoldable pub check_cost_guard :
      (N.F → Bytes) → Bytes → CostGuardConfig N.F → Result (CostGuardScorer N.F)
  unfolding new_cost_guard_scorer
  check_cost_guard render name c =
      if N.lt c.epsilon N.zero_f || N.lt N.one_f c.epsilon
      then err (plain (out_of_range name (codes "epsilon must be in [0, 1]") (render c.epsilon)))
      else if D.le c.alpha N.zero_f || D.le N.one_f c.alpha
      then err (plain (out_of_range name (codes "alpha must be in (0, 1)") (render c.alpha)))
      else if N.lt c.lambda N.zero_f
      then err (plain (out_of_range name (codes "lambda must be >= 0") (render c.lambda)))
      else if D.le c.percentile_margin_error N.zero_f || D.le N.one_f c.percentile_margin_error
      then err (
          plain (
            out_of_range name (codes "percentileMarginError must be in (0, 1)")
              (render c.percentile_margin_error)))
      else ok (new_cost_guard_scorer c)

  unfoldable pub lookup_digest : Model N.F → Option D.Digest
  lookup_digest m =
      elim (read_attribute_key D.as_digest D.mismatch m.attributes (codes "cost_digest")) [
        | ok d ↦ some d
        | err e ↦ none
        | panic ↦ none
      ]

  unfoldable pub sigmoid : N.F → N.F
  sigmoid x = N.div N.one_f (N.add N.one_f (D.exp x))

  abbrev pub at_or_zero : List N.F → ℕ → N.F
  at_or_zero xs i = elim (get_elem? xs i) [ none ↦ N.zero_f | some x ↦ x ]

  -- for a list that is not empty, where the indices are in range
  unfoldable pub median : List N.F → N.F
  median ranks =
      let c = D.sort ranks in
      let n = length c in
      if n % 2 == 1
      then at_or_zero c (n / 2)
      else N.div (N.add (at_or_zero c (n / 2 - 1)) (at_or_zero c (n / 2))) D.two

  unfoldable pub sum_floats : List N.F → N.F → N.F
  sum_floats [] acc = acc
  sum_floats (v ∷ vs) acc = sum_floats vs (N.add acc v)

  unfoldable pub sum_squares : N.F → List N.F → N.F → N.F
  sum_squares mean [] acc = acc
  sum_squares mean (v ∷ vs) acc =
      sum_squares mean vs (N.add acc (N.mul (N.sub v mean) (N.sub v mean)))

  unfoldable pub stddev_pop : List N.F → N.F
  unfolding sum_floats sum_squares
  stddev_pop ranks =
      let n = N.of_ℕ (length ranks) in
      let mean = N.div (sum_floats ranks N.zero_f) n in
      if ltb (length ranks) 2 then N.zero_f else D.sqrt (N.div (sum_squares mean ranks N.zero_f) n)

module _ ⦃N : Float64⦄ (D : Digests N.F) (s : CostGuardScorer N.F) where
  unfoldable pub is_under_explored : Model N.F → Bool
  unfolding lookup_digest
  is_under_explored m = elim (lookup_digest D m) [
    | none ↦ true
    | some d ↦ ltb (D.count d) s.sample_threshold
  ]

  -- the positions of the under-explored models, from a position on
  unfoldable pub under_explored_from : ℕ → List (Model N.F) → List ℕ
  unfolding is_under_explored
  under_explored_from i [] = []
  under_explored_from i (m ∷ models) =
      let rest = under_explored_from (suc i) models in
      if is_under_explored m then i ∷ rest else rest

  -- every position, from one on
  unfoldable pub positions_from : ℕ → List (Model N.F) → List ℕ
  positions_from i [] = []
  positions_from i (m ∷ models) = i ∷ positions_from (suc i) models

  unfoldable pub candidates : List (Model N.F) → List ℕ
  unfolding under_explored_from positions_from
  candidates models =
      if is_empty (under_explored_from 0 models)
      then positions_from 0 models
      else under_explored_from 0 models

  unfoldable pub neutral_scores : List (Model N.F) → List N.F
  neutral_scores [] = []
  neutral_scores (m ∷ models) = D.half ∷ neutral_scores models

  -- `explore`, for the number that `rand.IntN` gives; a number out of its range would panic
  unfoldable pub explore : ℕ → List (Model N.F) → Result (List N.F)
  unfolding candidates neutral_scores
  explore chosen models = elim (get_elem? (candidates models) chosen) [
    | none ↦ panic
    | some i ↦ ok (set (neutral_scores models) i N.one_f)
  ]

  unfoldable pub rank : D.Digest → N.F
  rank d =
      N.add (D.trimmed_mean d N.zero_f s.alpha) (N.mul s.lambda (D.trimmed_mean d s.alpha N.one_f))

  -- the rank of a model that is explored
  unfoldable pub rank_of : Model N.F → Option N.F
  unfolding lookup_digest rank
  rank_of m = elim (lookup_digest D m) [
    | none ↦ none
    | some d ↦ if ltb (D.count d) s.sample_threshold then none else some (rank d)
  ]

  unfoldable pub ranks_of : List (Model N.F) → List N.F
  unfolding rank_of
  ranks_of [] = []
  ranks_of (m ∷ models) =
      let rest = ranks_of models in elim (rank_of m) [ none ↦ rest | some r ↦ r ∷ rest ]

  -- the scores by the rank, neutral for a model without one
  unfoldable pub rank_scores : N.F → N.F → List (Model N.F) → List N.F
  unfolding rank_of sigmoid
  rank_scores beta med [] = []
  rank_scores beta med (m ∷ models) =
      elim (rank_of m) [ none ↦ D.half | some r ↦ sigmoid D (N.mul beta (N.sub r med)) ]
      ∷ rank_scores beta med models

  unfoldable pub exploit : List (Model N.F) → List N.F
  unfolding ranks_of rank_scores neutral_scores median stddev_pop
  exploit models =
      let ranks = ranks_of models in
      let sigma = stddev_pop D ranks in
      if ltb (length ranks) 2 || D.is_zero sigma
      then neutral_scores models
      else rank_scores (N.div N.one_f sigma) (median D ranks) models

  -- `Score`, for the numbers of `rand.Float64` and `rand.IntN`
  unfoldable pub score_by_guard : N.F → ℕ → List (Model N.F) → Result (List N.F)
  unfolding explore exploit
  score_by_guard u chosen [] = ok []
  score_by_guard u chosen (m ∷ models) =
      if N.lt u s.epsilon then explore chosen (m ∷ models) else ok (exploit (m ∷ models))
