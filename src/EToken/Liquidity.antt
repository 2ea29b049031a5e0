-- ===== src/EToken/Liquidity.antt =====
-- Deposits, withdrawals and transfers of an eToken, and the earnings of its asset manager
-- (`EToken.deposit`, `withdraw`, `_transfer`, `asset_earnings`, prototype/ensuro.py).
use ensuro.Prelude.{ℕ, Bool, true, Option, none, some, if◌then◌else◌}
use ensuro.Prelude.Int.{ℤ, pos, ◌≤?◌, ◌=?◌, min}
use ensuro.Prelude.Calls.{Fault, Result, ok, ◌>>=◌, ◌>>◌, require}
use ensuro.WadRay.{WadRay, ◌/R◌}
use ensuro.Outside.{Outside, TokenBase}
use ensuro.Reserve.{transfer_to}
use ensuro.EToken.State.{EToken}
use ensuro.EToken.Scale.{
  calculate_current_scale, update_current_scale, update_token_interest_rate, check_balance,
  utilization_rate, balance_of, total_withdrawable, discrete_earning,
}

-- `self.whitelist is None or self.whitelist.accepts_…`
unfoldable pub accepted : Option ℕ → (ℕ → Bool) → Bool
accepted none test = true
accepted (some whitelist) test = test whitelist

-- `amount` is `None` for all that can be withdrawn.
unfoldable pub amount_or : Option ℤ → ℤ → ℤ
amount_or none all = all
amount_or (some amount) all = amount

module _ {L W : Type 0} ⦃w : WadRay⦄ ⦃b : TokenBase L⦄ ⦃o : Outside W⦄ where
  -- The currency has been transferred by the pool before. The result is the provider's balance.
  unfoldable pub deposit : ℤ → ℕ → ℤ → EToken L → W → Result (ℤ × EToken L)
  deposit now provider amount e x = do
    require (accepted e.whitelist (λ wl. o.accepts_deposit x wl e.contract_id provider amount))
        Fault.not_whitelisted
    e1 ← update_current_scale now e
    units ← w.to_ray amount /R e1.scale_factor
    base ← b.mint provider (w.to_wad units) e1.base
    e2 ← update_token_interest_rate now (record e1 { base = base })
    check_balance now e2 x
    utilization ← utilization_rate now e2
    require (e2.min_utilization_rate ≤? utilization) Fault.utilization_below_min
    balance ← balance_of now provider e2
    ok (balance, e2)

  unfoldable pub transfer : ℤ → ℕ → ℕ → ℤ → EToken L → W → Result (EToken L)
  transfer now sender recipient amount e x = do
    require
        (accepted e.whitelist (λ wl. o.accepts_transfer x wl e.contract_id sender recipient amount))
        Fault.not_whitelisted
    scale ← calculate_current_scale now e
    units ← w.to_ray amount /R scale
    base ← b.move sender recipient (w.to_wad units) e.base
    ok (record e { base = base })

  -- The state after the burn and the payment.
  unfoldable pub pay_out : ℤ → ℕ → ℤ → EToken L → W → Result (ℤ × EToken L × W)
  pay_out now provider amount e1 x = do
    require (accepted e1.whitelist (λ wl. o.accepts_withdrawal x wl e1.contract_id provider amount))
        Fault.not_whitelisted
    units ← w.to_ray amount /R e1.scale_factor
    base ← b.burn provider (w.to_wad units) e1.base
    e2 ← update_token_interest_rate now (record e1 { base = base })
    x' ← transfer_to e2.contract_id e2.asset_manager provider amount x
    ok (amount, e2, x')

  -- The result is the amount that is withdrawn.
  unfoldable pub withdraw : ℤ → ℕ → Option ℤ → EToken L → W → Result (ℤ × EToken L × W)
  withdraw now provider amount e x = do
    e1 ← update_current_scale now e
    balance ← balance_of now provider e1
    withdrawable ← total_withdrawable now e1
    let max_withdraw = min balance withdrawable
    let asked = amount_or amount max_withdraw
    if asked =? pos 0 then ok (pos 0, e1, x) else do
      require (asked ≤? max_withdraw) Fault.over_withdrawable
      pay_out now provider asked e1 x

unfoldable pub asset_earnings :
    {L : Type 0} ⦃w : WadRay⦄ ⦃b : TokenBase L⦄ → ℤ → ℤ → EToken L → Result (EToken L)
asset_earnings now amount e = discrete_earning now amount e
