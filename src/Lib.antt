-- ===== src/Lib.antt =====
-- The prototype of the Ensuro protocol (prototype/ensuro.py), an insurance pool: liquidity providers
-- deposit in eTokens, whose capital backs the policies of risk modules; premiums accounts collect
-- the pure premiums, pay the payouts and borrow from the eTokens where premiums do not suffice.
--
-- A call goes from a risk module, which prices a policy and checks its exposure, to the pool, which
-- stores it, has its premiums account lock capital in the eTokens, and transfers the parts of the
-- premium. A resolution goes from the pool to the premiums account, which unlocks the capital and
-- pays from its premiums or by a loan of the junior and then of the senior eToken. Reserves (eTokens
-- and premiums accounts) may keep part of their cash with an asset manager.
--
-- The parts, and the classes and functions of prototype/ensuro.py that they model. State is a
-- record with the class's fields, a method is a function from the state and arguments to the new
-- state, and what may raise returns a `Result` (Prelude/Calls), whose faults stand for the messages
-- of `require`. A raise ends the whole call, and what it leaves behind is not looked at, but for the
-- exception that `set_asset_manager` catches (Reserve/Management).
--
-- - Prelude: native numbers with a signed integer (Int), the floor division of Python (Division),
--   calls that may raise (Calls), dictionaries (Dict). Python's integers have no bound, so there is
--   no overflow to model.
-- - WadRay: the fixed-point types `Wad` and `Ray` of the package ethproto as a parameter, the laws that
--   are relied on, and a sample that rounds half up and meets them.
-- - Outside: the currency, the inherited token classes, and the asset managers and whitelists that
--   a reserve is plugged to, as parameters; Laws says what is relied on of the currency.
-- - Roles: the decorators `only_component_role`, `only_component_or_global_role` and
--   `only_component_or_global_or_open_role`.
-- - Reserve: `ReserveMixin._transfer_to`, and `set_asset_manager` in Management. The methods that call the
--   asset manager stand with it, in AssetManager/Forwarding.
-- - ScaledAmount: `ScaledAmount`, an amount that earns interest.
-- - EToken: `EToken`. Scale, supply and interest rate in Scale, `lock_scr` and `unlock_scr` in Capital,
--   deposits, transfers and withdrawals in Liquidity, loans in Loans, other setters in Settings.
-- - Policy: `Policy` and its premium split.
-- - RiskModule: `RiskModule`, `TrustfulRiskModule` and `SignedBucketRiskModule`, with `BucketParams`:
--   the constructor's checks in Setup, prices in Pricing, new policies and replacements in
--   Underwriting, the roles that set an attribute in Attributes.
-- - World: the time, the eTokens by address and what is outside, on which the next two act.
-- - PremiumsAccount: `PremiumsAccount`. Payments in State, loans in Borrow, policies in Policies.
-- - PolicyPool: `PolicyPool`. Dictionaries in State, premium transfers in Premiums, the calls in
--   Operations, new components in Registry.
-- - Whitelist: `LPManualWhitelist`. Vault: `FixedRateVault`.
-- - AssetManager: `LiquidityThresholdAssetManager` over an interface `Hooks` (Defs), which the managers
--   of one vault and of two vaults provide (Vaults), a reserve with its manager (Payments), and the
--   calls of it that a reserve forwards (Forwarding).
-- - Bindings: prototype/wrappers.py, as far as it computes: the components that `PolicyPool` finds in the
--   chain's events (Components), `SignedBucketRiskModule.fetch_buckets` (Buckets), `Policy` and
--   `PolicyDB` (Policies), and the calls on policies, over the deployed contracts as a parameter
--   (Calls).
-- - Config: `parse_period` (Periods) and `envvar_constructor` (Variables) of prototype/utils.py, on strings
--   of ASCII characters, with `env.str` of environs as a parameter.
-- - Tests: the theorems at concrete inputs, over a sample currency and token.
--
-- Loops of the source run over lists and are structural recursions, which need no fuel; but
-- `expire_policies` of the bindings calls itself without end on some arguments, and runs on fuel.
-- Contracts
-- are told apart by numbers, and eTokens, accounts and risk modules are functions from addresses to
-- states, so that one eToken that two accounts share is one state.
--
-- Not modelled: the declarations of the deployed contracts' ABI in prototype/wrappers.py, with the
-- constructors and the calls there that only forward; `load_config` of prototype/utils.py, which builds
-- objects by reflection from a configuration file; the contracts themselves
-- (contracts/), of which the prototype is the specification; the test clock; and what ethproto adds to
-- a call (views, snapshots, the generic access-control checks of its own decorators).
pub mod Prelude
pub mod WadRay
pub mod Outside
pub mod Roles
pub mod Reserve
pub mod ScaledAmount
pub mod EToken
pub mod RiskModule
pub mod Policy
pub mod World
pub mod PremiumsAccount
pub mod PolicyPool
pub mod Whitelist
pub mod Vault
pub mod AssetManager
pub mod Bindings
pub mod Config
pub mod Tests
