-- ===== src/Tests/Running.antt =====
-- The functions that the tests run, named once for their `unfolding` lines.
use ensuro.Prelude.Dict
use ensuro.Prelude.Int.{◌+ℤ◌, ◌-ℤ◌, ◌*ℤ◌}
use ensuro.Prelude.Int
use ensuro.Prelude.Calls.{◌>>=◌}
use ensuro.Prelude.Division
use ensuro.WadRay.Sample
use ensuro.Policy.Defs
use ensuro.RiskModule.State
use ensuro.RiskModule.Pricing
use ensuro.Reserve
use ensuro.ScaledAmount
use ensuro.Roles
use ensuro.World
use ensuro.Tests.Samples
use ensuro.EToken.Scale
use ensuro.EToken.Capital
use ensuro.EToken.Liquidity
use ensuro.EToken.Loans
use ensuro.PremiumsAccount.State as PremiumsAccountState
use ensuro.PremiumsAccount.Borrow
use ensuro.PremiumsAccount.Policies
use ensuro.PolicyPool.State as PolicyPoolState
use ensuro.PolicyPool.Premiums
use ensuro.PolicyPool.Operations
use ensuro.RiskModule.Underwriting
use ensuro.Whitelist.Defs as WhitelistDefs
use ensuro.Vault.Defs as VaultDefs
use ensuro.AssetManager.Defs as AssetManagerDefs
use ensuro.AssetManager.Vaults
use ensuro.AssetManager.Payments
use ensuro.AssetManager.Forwarding
use ensuro.PolicyPool.Registry
use ensuro.Bindings.Components
use ensuro.Bindings.Buckets
use ensuro.Bindings.BucketOrder
use ensuro.Bindings.Policies as BindingsPolicies
use ensuro.Bindings.Calls
use ensuro.Bindings.Stored

unfoldable pub numbers : Unit {0}
unfolding Dict.entry Dict.enter Dict.leave ◌+ℤ◌ ◌-ℤ◌ ◌*ℤ◌ Int.negℤ ◌>>=◌ Division.floor_div
    Division.floordiv Sample.mul_at Sample.div_at Sample.equal_4
numbers = tt

unfoldable pub policies : Unit {0}
unfolding numbers Defs.junior_scr Defs.senior_scr Defs.roc_for_term Defs.split_at
    Defs.do_premium_split Defs.sr_interest_rate Defs.jr_interest_rate Defs.sr_accrued_interest
    Defs.jr_accrued_interest State.from_rm Pricing.composition
    Pricing.get_minimum_premium_composition Pricing.get_minimum_premium Pricing.find_bucket
    Pricing.set_bucket_params Pricing.delete_bucket Pricing.bucket_params
    Pricing.get_minimum_premium_for_bucket
policies = tt

unfoldable pub reserves : Unit {0}
unfolding numbers Reserve.amount_sent Reserve.refill_if_short Reserve.transfer_to
    ScaledAmount.grown_scale ScaledAmount.scale_since ScaledAmount.get_scale ScaledAmount.next_scale
    ScaledAmount.update_scale ScaledAmount.get_scaled_amount ScaledAmount.add ScaledAmount.sub
    Roles.any_role Roles.only_component_role Roles.only_component_or_global_role
    Roles.only_component_or_global_or_open_role World.put_etk World.on_etk World.on_etk_out
    World.on_etk_value Samples.send Samples.burn_units Samples.mint_units Samples.move_units
    Samples.holder_of
reserves = tt

unfoldable pub etokens : Unit {0}
unfolding reserves Scale.calculate_current_scale Scale.set_scale_factor Scale.update_current_scale
    Scale.get_current_scale Scale.total_supply Scale.balance_of Scale.update_token_interest_rate
    Scale.funds_available Scale.funds_available_to_lock Scale.total_withdrawable
    Scale.utilization_rate Scale.max_negative_adjustment Scale.discrete_earning Scale.check_balance
    Capital.add_scr Capital.remove_scr Capital.lock_scr Capital.unlock_scr Liquidity.accepted
    Liquidity.amount_or Liquidity.deposit Liquidity.transfer Liquidity.pay_out Liquidity.withdraw
    Liquidity.asset_earnings Loans.touch_loans Loans.add_borrower Loans.get_loan
    Loans.set_internal_loan_interest_rate Loans.lend Loans.internal_loan Loans.repay_loan
etokens = tt

unfoldable pub accounts : Unit {0}
unfolding etokens policies PremiumsAccountState.pure_premiums
    PremiumsAccountState.borrowed_active_pp PremiumsAccountState.won_pure_premiums
    PremiumsAccountState.loan_limit PremiumsAccountState.or_keep
    PremiumsAccountState.set_loan_limits PremiumsAccountState.store_pure_premium_won
    PremiumsAccountState.max_deficit PremiumsAccountState.pay_from_premiums
    PremiumsAccountState.funds_available PremiumsAccountState.asset_earnings
    PremiumsAccountState.receive_grant PremiumsAccountState.withdraw_won_premiums Borrow.is_some
    Borrow.four_decimals Borrow.refill_for Borrow.approve_for Borrow.borrow_junior
    Borrow.borrow_senior Borrow.borrow_from_etk Borrow.store_ratio Borrow.set_deficit_ratio
    Borrow.pay_back Borrow.repay_borrowed Borrow.repay_etk Borrow.repay_if Borrow.repay_loans
    Policies.require_same_rate Policies.sr_adjustment Policies.jr_adjustment Policies.lock_if
    Policies.unlock_if Policies.policy_created Policies.policy_replaced Policies.unlock_policy
    Policies.policy_resolved_with_payout Policies.policy_expired
accounts = tt

unfoldable pub pools : Unit {0}
unfolding accounts PolicyPoolState.find_policy PolicyPoolState.put_policy
    PolicyPoolState.remove_policy PolicyPoolState.make_policy_id PolicyPoolState.put_account
    PolicyPoolState.put_risk_module Premiums.address Premiums.pay_if Premiums.collect
    Premiums.collect_replacement Operations.payout_of Operations.release_exposure
    Operations.not_smaller Operations.account_of Operations.close_policy Operations.parties
    Operations.deposit Operations.withdraw Operations.new_policy Operations.replace_policy
    Operations.settle Operations.resolve_policy Operations.expire_policy Operations.expire_policies
    Underwriting.within_duration Underwriting.take_exposure Underwriting.wanted_allowance
    Underwriting.check_allowances Underwriting.trustful_payer Underwriting.premium_or_minimum
    Underwriting.new_policy Underwriting.replace_policy Underwriting.trustful_new_policy
    Underwriting.trustful_resolve_policy
pools = tt

unfoldable pub services : Unit {0}
unfolding pools WhitelistDefs.status_at WhitelistDefs.is_undefined WhitelistDefs.is_whitelisted
    WhitelistDefs.check_defaults WhitelistDefs.init WhitelistDefs.whitelist_address
    WhitelistDefs.set_whitelist_defaults WhitelistDefs.statuses_of WhitelistDefs.get_status
    WhitelistDefs.accepts_deposit WhitelistDefs.accepts_withdrawal WhitelistDefs.accepts_transfer
    VaultDefs.init VaultDefs.total_assets VaultDefs.convert_to_shares VaultDefs.convert_to_assets
    VaultDefs.discrete_earning VaultDefs.max_withdraw VaultDefs.top_up VaultDefs.pay_assets
    VaultDefs.deposit VaultDefs.withdraw AssetManagerDefs.validate_params AssetManagerDefs.init
    AssetManagerDefs.or_old AssetManagerDefs.set_liquidity_thresholds AssetManagerDefs.invest
    AssetManagerDefs.deinvest AssetManagerDefs.record_earnings AssetManagerDefs.raise_cash
    AssetManagerDefs.rebalance AssetManagerDefs.refill_wallet AssetManagerDefs.deinvest_all
    AssetManagerDefs.checkpoint Vaults.if_some Vaults.amount_or_all Vaults.vault_deposit
    Vaults.vault_withdraw Vaults.discretionary_deposit Vaults.discretionary_withdraw
    Vaults.vault_value Vaults.both_value Vaults.plus_deinvest Vaults.vault_to_discretionary
    Vaults.discretionary_to_vault Payments.on_currency Forwarding.on_manager Forwarding.checkpoint
    Forwarding.rebalance Forwarding.record_earnings Forwarding.forward_to_asset_manager
    Forwarding.set_thresholds Forwarding.invested Registry.add_etoken Registry.add_risk_module
    Registry.add_borrower_if Registry.add_premiums_account
services = tt

unfoldable pub bindings : Unit {0}
unfolding numbers Components.change Components.replay Components.fetch_etokens
    Components.fetch_riskmodules Components.fetch_premiums_accounts Components.status_after
    Buckets.from_contract_bucket_params Buckets.bucket_tuple Buckets.place Buckets.sorted
    Buckets.pop_bucket Buckets.apply_change Buckets.apply_changes Buckets.fetch_buckets
    BucketOrder.of_name BucketOrder.call_prototype BucketOrder.prototype_calls
    BucketOrder.as_prototype BindingsPolicies.as_tuple BindingsPolicies.from_policy_data
    BindingsPolicies.from_prototype_policy BindingsPolicies.sr_interest_rate
    BindingsPolicies.jr_interest_rate BindingsPolicies.sr_accrued_interest
    BindingsPolicies.jr_accrued_interest BindingsPolicies.put_entry BindingsPolicies.add_policy
    BindingsPolicies.get_policy Calls.filled Calls.premium_filled Calls.store_receipt
    Calls.make_policy_id Calls.new_policy Calls.replace_policy Calls.stored_tuples
    Calls.send_outcome Calls.resolve_policy Calls.expire_policy Calls.expire_policies Stored.add_all
bindings = tt
