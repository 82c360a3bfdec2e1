-- ===== src/Recommendations.antt =====
-- packages/db/src/recommendations.ts: the score of a candidate, the order of the page, and the
-- profile of a user.
pub mod Diverse
use Prim.Native.String.{String}
use text.Mathlib.Text.{◌==◌ as str_eq}
use mirth_spool.Base.{
  ℕ, zero, suc, ◌+◌, ◌-◌, ◌*◌, Bool, true, false, not, ◌&&◌, ◌||◌, Option, none, some, List, [],
  ◌∷◌, ◌++◌, leb, ltb, ◌==◌, if◌then◌else◌, any, filter, find, take, drop, length, map,
}
use mirth_spool.Base.Sort.{sort}
use mirth_spool.Base.Int.{ℤ, pos}
use mirth_spool.Base.Double.{Double, DoubleOps}
use mirth_spool.Db.{MediaKind}
use mirth_spool.Text.{Platform}
use mirth_spool.Ranking.{priority_signal}

pub record RecommendationCandidate : Type 0 where
  pub id : ℕ
  pub media_kind : Option String
  pub published_at : ℕ
  pub source_id : Option ℕ
  pub source_priority : ℤ
  pub tag_slugs : List String

-- A record of numbers by name.
abbrev pub Affinities : Type 0
Affinities = List (String × Double)

pub record RecommendationFeatures : Type 0 where
  pub media : Affinities
  -- by the identifier of a source
  pub sources : List (ℕ × Double)
  pub tags : Affinities

pub record RecommendationWeights : Type 0 where
  pub favorite : Double
  pub hide : Double
  pub view : Double
  pub source : Double
  pub tag : Double
  pub media : Double
  pub freshness : Double
  pub source_priority : Double

-- The factors, in the order of their names.
pub data Factor : Type 0 where
  freshness media source source_priority tag : Factor

abbrev rank : Factor → ℕ
rank Factor.freshness = 0
rank Factor.media = 1
rank Factor.source = 2
rank Factor.source_priority = 3
rank Factor.tag = 4

pub record Explanation : Type 0 where
  pub factor : Factor
  pub label : String
  pub contribution : Double

module _ (platform : Platform) where
  open platform use {doubles}
  open doubles use {
    of_ℤ, add, sub, mul, div, neg, abs, exp, to_fixed, lt, eq, min as min_D, max as max_D,
  }

  abbrev whole : ℕ → Double
  whole n = of_ℤ (pos n)

  -- Math.abs(contribution) > 0.000_001
  counts : Double → Bool
  counts c = lt (div (whole 1) (whole 1000000)) (abs c)

  add_factor : Factor → String → String → Double → List Explanation → List Explanation
  unfolding counts
  add_factor factor positive negative c factors =
      if counts c
      then factors
        ++ record {
          factor = factor;
          label = if lt (whole 0) c then positive else negative;
          contribution = to_fixed 6 (abs c);
        }
          ∷ []
      else factors

  strongest_from : Double → List Double → Double
  strongest_from strongest [] = strongest
  strongest_from strongest (v ∷ vs) =
      strongest_from (if lt (abs strongest) (abs v) then v else strongest) vs

  affinity : Affinities → String → Double
  affinity [] name = whole 0
  affinity ((k, v) ∷ rest) name = if str_eq k name then v else affinity rest name

  source_affinity : List (ℕ × Double) → Option ℕ → Double
  source_affinity features none = whole 0
  source_affinity [] (some id) = whole 0
  source_affinity ((k, v) ∷ rest) (some id) = if k == id then v else source_affinity rest (some id)

  media_affinity : Affinities → Option String → Double
  unfolding affinity
  media_affinity features none = whole 0
  media_affinity features (some kind) = if str_eq kind "" then whole 0 else affinity features kind

  -- exp(-ageHours / 72) * weights.freshness; a time after now has the age zero.
  freshness_of : ℕ → ℕ → Double → Double
  freshness_of published_at now weight =
      let age = max_D (whole 0) (div (whole (now - published_at)) (whole 3600000)) in
      mul (exp (div (neg age) (whole 72))) weight

  -- The larger contribution first, then the name of the factor.
  weighs_more : Explanation → Explanation → Bool
  weighs_more a b =
      if eq a.contribution b.contribution
      then leb (rank a.factor) (rank b.factor)
      else lt b.contribution a.contribution

  total : List Double → Double
  total cs = total_from (whole 0) cs
    where
      total_from : Double → List Double → Double
      total_from acc [] = acc
      total_from acc (x ∷ xs) = total_from (add acc x) xs

  unfoldable pub score_recommendation :
      RecommendationCandidate
      → RecommendationFeatures
      → RecommendationWeights
      → ℕ
      → List Explanation × Double
  unfolding add_factor strongest_from source_affinity media_affinity freshness_of weighs_more total
      affinity
  score_recommendation c features weights now =
      let by_source = mul (source_affinity features.sources c.source_id) weights.source in
      let by_tag =
        mul (strongest_from (whole 0) (map (affinity features.tags) c.tag_slugs)) weights.tag in
      let by_media = mul (media_affinity features.media c.media_kind) weights.media in
      let by_freshness = freshness_of c.published_at now weights.freshness in
      let by_priority =
        mul (max_D (whole 0) (priority_signal platform c.source_priority))
          weights.source_priority in
      let factors =
        add_factor Factor.source_priority "From a preferred configured source"
          "From a lower-priority configured source" by_priority
          (add_factor Factor.freshness "Recently published" "Older content" by_freshness (
            add_factor Factor.media "A media format you tend to enjoy"
              "Less like media formats you hide" by_media
              (add_factor Factor.tag "Topics similar to your activity" "Less like topics you hide"
                by_tag
                (add_factor Factor.source "A source you tend to enjoy" "Less like sources you hide"
                  by_source [])))) in
      (
        take 3 (sort weighs_more factors),
        to_fixed 6 (
            max_D (whole 0) (
              min_D (whole 20)
                (total (by_source ∷ by_tag ∷ by_media ∷ by_freshness ∷ by_priority ∷ [])))),
      )

  -- addMap
  unfoldable pub add_map : Affinities → Option String → Double → Affinities
  add_map m none value = m
  add_map m (some key) value = if str_eq key "" then m else put m
    where
      clamp : Double → Double
      clamp x = max_D (neg (whole 20)) (min_D (whole 20) x)

      put : Affinities → Affinities
      put [] = (key, clamp (add (whole 0) value)) ∷ []
      put ((k, v) ∷ rest) =
          let later = put rest in
          if str_eq k key then (k, clamp (add v value)) ∷ rest else (k, v) ∷ later

same_source : Option ℕ → ℕ → Bool
same_source none id = false
same_source (some s) id = s == id

-- selected.slice(-3)
recent : List RecommendationCandidate → List RecommendationCandidate
recent selected = drop (length selected - 3) selected

-- The source of the candidate has fewer than two of the last three places.
pub fits : List RecommendationCandidate → RecommendationCandidate → Bool
unfolding same_source recent
fits selected c = elim c.source_id [
  | none ↦ true
  | some id ↦
      ltb
        (length (
          filter (λ (item : RecommendationCandidate). same_source item.source_id id)
            (recent selected)))
        2
]

-- The first that fits, or the first of all; and the others in their order.
pub pick_first :
    (RecommendationCandidate → Bool)
    → List RecommendationCandidate
    → Option (RecommendationCandidate × List RecommendationCandidate)
pick_first p [] = none
pick_first p (c ∷ cs) =
    let later = pick_first p cs in
    if p c then some (c, cs) else (elim later [ none ↦ none | some (d, ds) ↦ some (d, c ∷ ds) ])

pub choose :
    List RecommendationCandidate
    → RecommendationCandidate
    → List RecommendationCandidate
    → RecommendationCandidate × List RecommendationCandidate
unfolding pick_first fits
choose selected c cs = elim (pick_first (fits selected) (c ∷ cs)) [ none ↦ (c, cs) | some r ↦ r ]

-- The loop; `none` says that the fuel ran out.
pub diversify :
    ℕ
    → ℕ
    → List RecommendationCandidate
    → List RecommendationCandidate
    → Option (List RecommendationCandidate)
unfolding choose
diversify zero limit remaining selected = none
diversify (suc fuel) limit [] selected = some selected
diversify (suc fuel) limit (c ∷ cs) selected =
    let (next, rest) = choose selected c cs in
    let more = diversify fuel limit rest (selected ++ next ∷ []) in
    if ltb (length selected) limit then more else some selected

unfoldable pub diversify_recommendations :
    List RecommendationCandidate → ℕ → Option (List RecommendationCandidate)
unfolding diversify
diversify_recommendations ranked limit = diversify (suc (length ranked)) limit ranked []

pub record RecommendationProfile : Type 0 where
  pub computed_at : ℕ
  pub explicit_action_count : ℕ

pub data ProfileStatus : Type 0 where
  disabled cold_start stale personalized : ProfileStatus

-- RECOMMENDATION_PROFILE_STALE_MS is 25 hours.
unfoldable pub recommendation_profile_status :
    Option RecommendationProfile → Bool → ℕ → ProfileStatus
recommendation_profile_status profile false now = disabled
recommendation_profile_status none true now = cold_start
recommendation_profile_status (some p) true now =
    if ltb p.explicit_action_count 1
    then cold_start
    else if ltb 90000000 (now - p.computed_at)
    then stale
    else personalized
