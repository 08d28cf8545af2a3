-- ===== src/Database/Rows.antt =====
-- The rows of the tables that the Python services read and write. A double that may be NULL is an
-- option; the columns that every writer fills are plain.
use portfolio_engine.Prelude.{ℕ, String, Option}
use portfolio_engine.Dict.{Dict}

pub record PriceRow (F : Type 0) : Type 0 where
  pub time : ℕ
  pub symbol : String
  pub open_price : F
  pub high : F
  pub low : F
  pub close : F
  pub volume : F

pub record FeatureRow (F : Type 0) : Type 0 where
  pub time : ℕ
  pub symbol : String
  pub values : Dict (Option F)

pub record ForecastRow (F : Type 0) : Type 0 where
  pub time : ℕ
  pub symbol : String
  pub garch_vol : Option F
  pub xgb_vol : Option F
  pub realized_vol : Option F

-- A row of `model_metrics`.
pub record MetricsRow (F : Type 0) : Type 0 where
  pub time : ℕ
  pub symbol : String
  pub garch_mse : Option F
  pub garch_qlike : Option F
  pub xgb_mse : Option F
  pub xgb_qlike : Option F
  pub garch_samples : ℕ
  pub xgb_samples : ℕ
  pub window_points : ℕ

-- A row of `portfolio_state`.
pub record StateRow (F : Type 0) : Type 0 where
  pub time : ℕ
  pub weights : Dict F
  pub portfolio_vol : Option F
  pub sharpe_proxy : Option F
  pub equity : Option F
  pub transaction_cost : Option F
  pub turnover : Option F
  pub period_pnl : Option F
  pub cumulative_pnl : Option F
