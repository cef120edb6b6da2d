-- ===== src/Promotion/Overrides.antt =====
-- src/omegahive/promotion/config.py: the thresholds of a scenario over the defaults.
use omegahive.Base.{ℕ, ◌/◌, String, Option, none, some, [], ◌∷◌, ◌==◌, if◌then◌else◌, ◌>>=◌, Dict}
use omegahive.Promotion.Rules.{Fraction, DetectorConfig, PromotionConfig, default_config}

-- The thresholds of `ScenarioConfig` (src/omegahive/sim/scenario/schema.py); one that is None is
-- not given.
pub record ScenarioConfig : Type 0 where
  pub tiers : ℕ
  pub t_block : Option ℕ
  pub n_thread : Option ℕ
  pub c_spike : Option ℕ
  pub detectors : Dict Fraction

-- `int(val)` of a float that is not negative.
abbrev whole_part : Fraction → ℕ
whole_part f = f.num / f.den

-- `values[key] = …`, where the field is a float for one key only; `none` is the ValueError.
unfoldable pub override_one : String → Fraction → DetectorConfig → Option DetectorConfig
override_one key v c =
    if key == "k_retry"
    then some (record c { k_retry = whole_part v })
    else if key == "c_spike"
    then some (record c { c_spike = whole_part v })
    else if key == "c_window"
    then some (record c { c_window = whole_part v })
    else if key == "a_thresh"
    then some (record c { a_thresh = v })
    else if key == "t_stall"
    then some (record c { t_stall = whole_part v })
    else if key == "t_age"
    then some (record c { t_age = whole_part v })
    else if key == "loop_repeat"
    then some (record c { loop_repeat = whole_part v })
    else none

-- `_override_detectors`
unfoldable pub override_detectors : DetectorConfig → Dict Fraction → Option DetectorConfig
unfolding override_one
override_detectors c [] = some c
override_detectors c ((key, v) ∷ rest) = override_one key v c >>= λ d. override_detectors d rest

abbrev given : Option ℕ → ℕ → ℕ
given none d = d
given (some n) d = n

-- `PromotionConfig.from_scenario`
unfoldable pub from_scenario : Option ScenarioConfig → Option PromotionConfig
unfolding override_detectors
from_scenario none = some default_config
from_scenario (some s) = override_detectors default_config.detector s.detectors >>= λ d.
    some (record {
      t_block = given s.t_block default_config.t_block;
      n_thread = given s.n_thread default_config.n_thread;
      detector = d;
    })
