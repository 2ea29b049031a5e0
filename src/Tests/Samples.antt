-- ===== src/Tests/Samples.antt =====
-- Sample parameters: a currency that is a table of balances with unlimited allowances, a token that
-- is a table of units, and policy NFTs that are a list of holders.
use ensuro.Prelude.{ℕ, ◌*◌, ◌^◌, true, false, none, some, List, [], ◌∷◌, ◌==◌, if◌then◌else◌}
use ensuro.Prelude.Int.{ℤ, pos, ◌+ℤ◌, ◌-ℤ◌, ◌<?◌, ◌=?◌}
use ensuro.Prelude.Calls.{Fault, Result, ok, err}
use ensuro.WadRay.{WadRay}
use ensuro.WadRay.Sample.{half_up}
use ensuro.Outside.{Outside, TokenBase}
use ensuro.Roles.{Caller}
use ensuro.ScaledAmount.{empty_amount}
use ensuro.EToken.State.{EToken}
use ensuro.World.{World}
use ensuro.RiskModule.State.{RiskModule}
use ensuro.PremiumsAccount.State.{PremiumsAccount}
use ensuro.PolicyPool.State.{Nft, Pool}

instance abbrev pub sample_wadray : WadRay
sample_wadray = half_up

-- n whole units, and n thousandths.
abbrev pub units : ℕ → ℤ
units n = pos (n * 10 ^ 18)

abbrev pub thousandths : ℕ → ℤ
thousandths n = pos (n * 10 ^ 15)

abbrev pub Cash : Type 0
Cash = ℕ → ℤ

abbrev pub put : ℕ → ℤ → Cash → Cash
put a v x k = if a == k then v else x k

unfoldable pub send : ℕ → ℕ → ℤ → Cash → Result Cash
send from to amount x =
    if x from <? amount
    then err Fault.outside
    else (let y = put from (x from -ℤ amount) x in ok (put to (y to +ℤ amount) y))

instance abbrev pub cash : Outside Cash
cash = record {
  decimals = 6;
  balance_of = λ x a. x a;
  allowance = λ x owner spender. units 1000000;
  transfer = send;
  transfer_from = λ caller from to amount x. send from to amount x;
  approve = λ owner spender amount x. ok x;
  mint = λ a amount x. ok (put a (x a +ℤ amount) x);
  refill_wallet = λ manager amount x. ok x;
  accepts_deposit = λ x wl etk provider amount. true;
  accepts_withdrawal = λ x wl etk provider amount. true;
  accepts_transfer = λ x wl etk from to amount. true;
}

pub record Units : Type 0 where
  pub supply : ℤ
  pub held : ℕ → ℤ

unfoldable pub burn_units : ℕ → ℤ → Units → Result Units
burn_units a amount l =
    if l.held a <? amount
    then err Fault.outside
    else ok (record { supply = l.supply -ℤ amount; held = put a (l.held a -ℤ amount) l.held })

unfoldable pub mint_units : ℕ → ℤ → Units → Result Units
mint_units a amount l =
    ok (record { supply = l.supply +ℤ amount; held = put a (l.held a +ℤ amount) l.held })

unfoldable pub move_units : ℕ → ℕ → ℤ → Units → Result Units
move_units from to amount l =
    if l.held from <? amount
    then err Fault.outside
    else (let y = put from (l.held from -ℤ amount) l.held in
        ok (record { supply = l.supply; held = put to (y to +ℤ amount) y }))

instance abbrev pub units_base : TokenBase Units
units_base = record {
  total_supply = λ l. l.supply;
  balance_of = λ l a. l.held a;
  mint = mint_units;
  burn = burn_units;
  move = move_units;
}

abbrev pub Holders : Type 0
Holders = List (ℤ × ℕ)

unfoldable pub holder_of : Holders → ℤ → Result ℕ
holder_of [] id = err Fault.outside
holder_of ((j, a) ∷ l) id = if id =? j then ok a else holder_of l id

instance abbrev pub holders_nft : Nft Holders
holders_nft = record { mint = λ a id l. ok ((id, a) ∷ l); owner_of = holder_of; digest = λ a. a }

-- A caller that has every role.
abbrev pub root : Caller
root = record { running_as = 1; has_role = λ role account. true }

-- Addresses: 1 the caller, 2 the pool, 3 the treasury, 4 the account, 5 the senior and 6 the junior
-- eToken, 7 the risk module, 8 its wallet, 9 a customer, 10 a liquidity provider.
abbrev pub account : PremiumsAccount
account = record {
  contract_id = 4;
  asset_manager = none;
  junior_etk = some 6;
  senior_etk = some 5;
  active_pure_premiums = pos 0;
  surplus = pos 0;
  deficit_ratio = units 1;
  jr_loan_limit_ = pos 0;
  sr_loan_limit_ = pos 0;
}

abbrev pub wallets : Cash
wallets k = units 5000

abbrev pub etoken : ℕ → EToken Units
etoken a = record {
  contract_id = a;
  base = record { supply = units 5000; held = λ k. if k == 10 then units 5000 else pos 0 };
  asset_manager = none;
  scale_factor = pos (10 ^ 27);
  last_scale_update = pos 1000;
  scr = pos 0;
  scr_interest_rate = pos 0;
  token_interest_rate = pos 0;
  liquidity_requirement = units 1;
  min_utilization_rate = pos 0;
  max_utilization_rate = units 1;
  whitelist = none;
  internal_loan_interest_rate = thousandths 50;
  loans = (4, empty_amount) ∷ [];
  check_balance_disabled = false;
}

abbrev pub world : World Units Cash
world = record { now = pos 1000; etk = etoken; out = wallets }

abbrev pub risk_module : RiskModule
risk_module = record {
  contract_id = 7;
  premiums_account = 4;
  moc = units 1;
  jr_coll_ratio = thousandths 200;
  coll_ratio = thousandths 600;
  ensuro_pp_fee = thousandths 20;
  ensuro_coc_fee = thousandths 100;
  jr_roc = thousandths 100;
  sr_roc = thousandths 50;
  max_payout_per_policy = units 1000;
  exposure_limit = units 10000;
  active_exposure = pos 0;
  max_duration = pos 8760;
  wallet = 8;
}

abbrev pub pool : Pool Units Cash Holders
pool = record {
  contract_id = 2;
  treasury = 3;
  policies = [];
  etokens = (50, 5) ∷ (60, 6) ∷ [];
  premiums_accounts = 4 ∷ [];
  module_names = (70, 7) ∷ [];
  accounts = λ k. account;
  risk_modules = λ k. risk_module;
  nft = [];
  world = world;
}
