-- ===== src/Ranking.antt =====
-- packages/db/src/feed-ranking.ts: the coordinate by which the hot feed is ordered.
use Prim.Native.String.{String}
use mirth_spool.Base.{ℕ, ◌%◌, ◌^◌, Option, none, some, if◌then◌else◌}
use mirth_spool.Base.Int.{ℤ, pos, negsuc, eqb_ℤ}
use mirth_spool.Base.Double.{Double}
use mirth_spool.Text.{Platform}

module _ (platform : Platform) where
  open platform use {doubles, md5_word, sha256_word}
  open doubles use {
    of_ℤ, add, sub, mul, div, abs, sign, log1p, to_fixed, min as min_D, max as max_D,
  }

  abbrev whole : ℕ → Double
  whole n = of_ℤ (pos n)

  pub provider_signal : Option ℤ → Double
  provider_signal none = whole 0
  provider_signal (some score) =
      if eqb_ℤ score (pos 0)
      then whole 0
      else mul (sign (of_ℤ score)) (min_D (whole 4) (log1p (abs (of_ℤ score))))

  unfoldable pub priority_signal : ℤ → Double
  priority_signal priority =
      max_D (of_ℤ (negsuc 1)) (min_D (whole 2) (div (of_ℤ priority) (whole 50)))

  -- Times are milliseconds since the epoch.
  unfoldable pub hot_ranking_coordinate : Option ℤ → ℕ → ℤ → Double
  unfolding provider_signal priority_signal
  hot_ranking_coordinate provider_score published_at source_priority =
      add (add (provider_signal provider_score) (priority_signal source_priority))
        (div (div (whole published_at) (whole 3600000)) (whole 72))

  pub explain_hot_ranking_score : Double → ℕ → Double
  explain_hot_ranking_score coordinate now =
      to_fixed 6 (sub coordinate (div (div (whole now) (whole 3600000)) (whole 72)))

  -- & 0x7fffffff
  unfoldable pub content_random_key : ℕ → ℕ
  content_random_key id = md5_word id % 2 ^ 31

  unfoldable pub random_seed_pivot : String → ℕ
  random_seed_pivot seed = sha256_word seed % 2 ^ 31
