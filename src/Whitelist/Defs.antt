-- ===== src/Whitelist/Defs.antt =====
-- `LPManualWhitelist` (prototype/ensuro.py): which providers may deposit, withdraw and transfer.
use Prim.Native.String.{String}
use ensuro.Prelude.{
  ℕ, Bool, true, false, not, ◌&&◌, Option, none, some, List, [], ◌∷◌, if◌then◌else◌,
}
use ensuro.Prelude.Calls.{Fault, Result, ok, ◌>>◌, require}
use ensuro.Prelude.Dict.{entry, enter}
use ensuro.Roles.{RoleName, Caller, only_component_role}

-- The constants `ST_…`; a status is a string, and any other one is neither of the three.
pub data Status : Type 0 where
  blacklisted whitelisted undefined : Status
  other : String → Status

-- The constants `OP_…`, which index a tuple of statuses.
pub data Operation : Type 0 where
  deposit withdraw send_transfer receive_transfer : Operation

pub record Statuses : Type 0 where
  pub for_deposit : Status
  pub for_withdraw : Status
  pub for_send : Status
  pub for_receive : Status

unfoldable pub status_at : Statuses → Operation → Status
status_at st deposit = st.for_deposit
status_at st withdraw = st.for_withdraw
status_at st send_transfer = st.for_send
status_at st receive_transfer = st.for_receive

-- `st == ST_UNDEFINED`
unfoldable pub is_undefined : Status → Bool
is_undefined undefined = true
is_undefined _ = false

-- `st == ST_WHITELISTED`
unfoldable pub is_whitelisted : Status → Bool
is_whitelisted whitelisted = true
is_whitelisted _ = false

pub record Whitelist : Type 0 where
  pub contract_id : ℕ
  pub wl_status : List (ℕ × Statuses)
  pub default_status : Statuses

-- `_check_defaults`
unfoldable pub check_defaults : Statuses → Result (Unit {0})
check_defaults st =
    require
      (not (is_undefined st.for_deposit)
        && not (is_undefined st.for_withdraw)
        && not (is_undefined st.for_send)
        && not (is_undefined st.for_receive))
      Fault.undefined_default

unfoldable pub init : ℕ → Statuses → Result Whitelist
init contract_id default_status = do
  check_defaults default_status
  ok (record { contract_id = contract_id; wl_status = []; default_status = default_status })

unfoldable pub whitelist_address : Caller → ℕ → Statuses → Whitelist → Result Whitelist
whitelist_address c address st wl = do
  only_component_role c wl.contract_id (RoleName.lp_whitelist ∷ [])
  ok (record wl { wl_status = enter address st wl.wl_status })

unfoldable pub set_whitelist_defaults : Caller → Statuses → Whitelist → Result Whitelist
set_whitelist_defaults c new_defaults wl = do
  only_component_role c wl.contract_id (RoleName.lp_whitelist_admin ∷ [])
  check_defaults new_defaults
  ok (record wl { default_status = new_defaults })

-- `wl_status.get(provider, default_status)`
unfoldable pub statuses_of : Option Statuses → Statuses → Statuses
statuses_of none defaults = defaults
statuses_of (some st) defaults = st

-- `_get_status`
unfoldable pub get_status : ℕ → Operation → Whitelist → Status
get_status provider operation wl =
    let status =
      status_at (statuses_of (entry provider wl.wl_status) wl.default_status) operation in
    if is_undefined status then status_at wl.default_status operation else status

unfoldable pub accepts_deposit : ℕ → Whitelist → Bool
accepts_deposit provider wl = is_whitelisted (get_status provider deposit wl)

unfoldable pub accepts_withdrawal : ℕ → Whitelist → Bool
accepts_withdrawal provider wl = is_whitelisted (get_status provider withdraw wl)

unfoldable pub accepts_transfer : ℕ → ℕ → Whitelist → Bool
accepts_transfer from to wl =
    is_whitelisted (get_status from send_transfer wl)
    && is_whitelisted (get_status to receive_transfer wl)
