-- ===== src/AssetManager/Defs.antt =====
-- `LiquidityThresholdAssetManager` and `AssetManager` (prototype/ensuro.py). What a subclass and the
-- reserve provide is the interface `Hooks` over their state.
use ensuro.Prelude.{◌&&◌, Option, none, some, if◌then◌else◌}
use ensuro.Prelude.Int.{ℤ, pos, ◌+ℤ◌, ◌-ℤ◌, ◌≤?◌, ◌<?◌, min}
use ensuro.Prelude.Calls.{Fault, Result, ok, ◌>>=◌, ◌>>◌, require}

pub record Manager : Type 0 where
  pub liquidity_min : ℤ
  pub liquidity_middle : ℤ
  pub liquidity_max : ℤ
  pub last_investment_value : ℤ

pub record Hooks (S : Type 0) : Type 0 where
  -- `reserve.currency.balance_of(reserve)` and `reserve.asset_earnings(amount)`
  pub cash : S → ℤ
  pub earn : ℤ → S → Result S
  -- `get_investment_value()`
  pub value : S → Result ℤ
  -- what `_invest` and `_deinvest` do after the call of the parent's
  pub move_in : ℤ → S → Result S
  pub move_out : ℤ → S → Result S

unfoldable pub validate_params : Manager → Result (Unit {0})
validate_params m =
    require (m.liquidity_min ≤? m.liquidity_middle && (m.liquidity_middle ≤? m.liquidity_max))
      Fault.thresholds_invalid

-- `LiquidityThresholdAssetManager.__init__`, of the fields that are given
unfoldable pub init : Manager → Result Manager
init m = do validate_params m; ok m

unfoldable pub or_old : Option ℤ → ℤ → ℤ
or_old none old = old
or_old (some new) old = new

unfoldable pub set_liquidity_thresholds : Option ℤ → Option ℤ → Option ℤ → Manager → Result Manager
set_liquidity_thresholds new_min new_middle new_max m = do
  let m' = record m {
    liquidity_min = or_old new_min m.liquidity_min;
    liquidity_middle = or_old new_middle m.liquidity_middle;
    liquidity_max = or_old new_max m.liquidity_max;
  }
  validate_params m'
  ok m'

module _ {S : Type 0} ⦃h : Hooks S⦄ where
  unfoldable pub invest : ℤ → Manager → S → Result (Manager × S)
  invest amount m s = do
    s' ← h.move_in amount s
    ok (record m { last_investment_value = m.last_investment_value +ℤ amount }, s')

  unfoldable pub deinvest : ℤ → Manager → S → Result (Manager × S)
  deinvest amount m s = do
    s' ← h.move_out amount s
    ok (record m { last_investment_value = m.last_investment_value -ℤ amount }, s')

  unfoldable pub record_earnings : Manager → S → Result (Manager × S)
  record_earnings m s = do
    investment_value ← h.value s
    s' ← h.earn (investment_value -ℤ m.last_investment_value) s
    ok (record m { last_investment_value = investment_value }, s')

  -- Cash below the minimum: as much as is missing to the middle, or all that is invested.
  unfoldable pub raise_cash : ℤ → Manager → S → Result (Manager × S)
  raise_cash cash m s = do
    investment_value ← h.value s
    let amount = min (m.liquidity_middle -ℤ cash) investment_value
    if pos 0 <? amount then deinvest amount m s else ok (m, s)

  unfoldable pub rebalance : Manager → S → Result (Manager × S)
  rebalance m s =
      let cash = h.cash s in
      if m.liquidity_max <? cash
      then invest (cash -ℤ m.liquidity_middle) m s
      else if cash <? m.liquidity_min
      then raise_cash cash m s
      else ok (m, s)

  unfoldable pub refill_wallet : ℤ → Manager → S → Result (Manager × S)
  refill_wallet payment_amount m s = do
    let cash = h.cash s
    investment_value ← h.value s
    let wanted = payment_amount +ℤ m.liquidity_middle -ℤ cash
    deinvest (if investment_value <? wanted then investment_value else wanted) m s

  unfoldable pub deinvest_all : Manager → S → Result (Manager × S)
  deinvest_all m s = do investment_value ← h.value s; deinvest investment_value m s

  -- `AssetManager.checkpoint`
  unfoldable pub checkpoint : Manager → S → Result (Manager × S)
  checkpoint m s = do r ← record_earnings m s; rebalance r.0 r.1
