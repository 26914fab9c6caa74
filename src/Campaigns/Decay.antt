-- ===== src/Campaigns/Decay.antt =====
-- packages/guardian_campaigns/decay.py, over the rows of the tables `usages` and
-- `campaign_metrics`. A time is a number of microseconds, and a request count is not negative.
use Prim.Native.Nat.{ℕ, zero, suc, ◌+◌, ◌-◌, ◌*◌}
use living_api_contract_guar.Common.{
  String, Bool, Option, none, some, List, [], ◌∷◌, map, select, length, leb, ltb, ◌&&◌, ◌==◌,
  string_key, if◌then◌else◌,
}
use living_api_contract_guar.Common.Int.{pos}
use living_api_contract_guar.Common.Sets.{set_of}
use living_api_contract_guar.Campaigns.StateMachine.{Floats}

pub record Usage : Type 0 where
  pub endpoint_id : String
  pub client_id : String
  pub window_end : ℕ
  pub request_count : ℕ

abbrev pub sum_counts : List Usage → ℕ
sum_counts [] = 0
sum_counts (u ∷ us) = u.request_count + sum_counts us

-- `timedelta(days=n)`
abbrev pub days : ℕ → ℕ
days n = n * 86400000000

-- the rows that the query of `get_rolling_usage` selects
unfoldable pub in_window : ℕ → String → ℕ → Usage → Bool
in_window now endpoint_id window_days u =
    (u.endpoint_id == endpoint_id) && leb (now - days window_days) u.window_end

-- `get_rolling_usage`
unfoldable pub get_rolling_usage : ℕ → List Usage → String → ℕ → ℕ × ℕ
unfolding in_window set_of
get_rolling_usage now usages endpoint_id window_days =
    let rows = select (in_window now endpoint_id window_days) usages in
    (sum_counts rows, length (set_of (map (λ u. u.client_id) rows)))

-- `max(1, n)`
unfoldable pub at_least_one : ℕ → ℕ
at_least_one zero = 1
at_least_one (suc n) = suc n

module _ (floats : Floats) where
  pub record CampaignMetric : Type 0 where
    pub campaign_id : String
    pub sampled_at : ℕ
    pub usage_count : ℕ
    pub ewma_value : floats.Float
    pub remaining_client_count : ℕ

  -- `_alpha`; the sum `span + 1.0` is exact
  unfoldable pub alpha : ℕ → floats.Float
  unfolding at_least_one
  alpha decay_window_days = floats.div (pos 2) (pos (at_least_one decay_window_days + 1))

  -- `compute_ewma`
  unfoldable pub compute_ewma : floats.Float → floats.Float → ℕ → floats.Float
  compute_ewma new_value prev_ewma decay_window_days =
      let a = alpha decay_window_days in
      floats.add (floats.mul a new_value)
        (floats.mul (floats.sub (floats.literal "1.0") a) prev_ewma)

  -- the row of one campaign with the greatest time, `best` being the one found so far
  unfoldable pub latest :
      String → Option CampaignMetric → List CampaignMetric → Option CampaignMetric
  latest campaign_id best [] = best
  latest campaign_id none (m ∷ ms) =
      latest campaign_id (if m.campaign_id == campaign_id then some m else none) ms
  latest campaign_id (some b) (m ∷ ms) =
      latest campaign_id
        (if (m.campaign_id == campaign_id) && ltb b.sampled_at m.sampled_at then some m else some b)
        ms

  unfoldable pub prev_ewma_of : ℕ → Option CampaignMetric → floats.Float
  prev_ewma_of usage_count none = floats.of_int (pos usage_count)
  prev_ewma_of usage_count (some m) = m.ewma_value

  -- `record_metric`: the new row, which is added to the table
  unfoldable pub record_metric : ℕ → List CampaignMetric → String → ℕ → ℕ → ℕ → CampaignMetric
  record_metric now metrics campaign_id usage_count remaining_client_count decay_window_days =
      let prev_ewma = prev_ewma_of usage_count (latest campaign_id none metrics) in
      record {
        campaign_id = campaign_id;
        sampled_at = now;
        usage_count = usage_count;
        ewma_value =
            floats.round
              (compute_ewma (floats.of_int (pos usage_count)) prev_ewma decay_window_days) 4;
        remaining_client_count = remaining_client_count;
      }
