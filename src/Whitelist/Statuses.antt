-- ===== src/Whitelist/Statuses.antt =====
-- What a whitelist that is reached by its operations decides.
use ensuro.Prelude.{ℕ, ◌≡◌, refl, arith, Bool, true, false, not, ◌&&◌, ◌==◌, if◌then◌else◌}
use ensuro.Prelude.Calls.{
  ok, Returns, returns, Returns-bind, Returns-then, Returns-eq_ok, require_passed,
}
use ensuro.Prelude.Dict.{enter, entry-enter}
use ensuro.Roles.{Caller}
use ensuro.Whitelist.Defs.{
  Operation, deposit, withdraw, send_transfer, receive_transfer, Statuses, status_at, is_undefined,
  Whitelist, init, whitelist_address, set_whitelist_defaults, statuses_of, get_status,
  check_defaults,
}

-- The default says something of every operation.
pub HasDefaults : Whitelist → Type 0
HasDefaults wl =
    (operation : Operation) → is_undefined (status_at wl.default_status operation) ≡ false

four_tests :
    (a b c d : Bool)
    → (not a && not b && not c && not d) ≡ true
    → (a ≡ false) × (b ≡ false) × (c ≡ false) × (d ≡ false)
four_tests a b c d h = ground arith

all_defined :
    (st : Statuses)
    → check_defaults st ≡ ok tt
    → (operation : Operation) → is_undefined (status_at st operation) ≡ false
unfolding check_defaults status_at
all_defined st h operation = go operation (four_tests _ _ _ _ (require_passed _ _ h))
  where
    go :
        (operation : Operation)
        → (is_undefined st.for_deposit ≡ false)
          × (is_undefined st.for_withdraw ≡ false)
          × (is_undefined st.for_send ≡ false)
          × (is_undefined st.for_receive ≡ false)
        → is_undefined (status_at st operation) ≡ false
    go deposit all = all.0
    go withdraw all = all.1
    go send_transfer all = all.2
    go receive_transfer all = all.3

-- A whitelist that was created and then changed by any calls.
pub data Managed : Whitelist → Type 0 where
  created :
      {wl : Whitelist} (contract_id : ℕ) (defaults : Statuses)
      → init contract_id defaults ≡ ok wl
      → Managed wl
  listed :
      {wl wl' : Whitelist} (c : Caller) (address : ℕ) (st : Statuses)
      → Managed wl
      → whitelist_address c address st wl ≡ ok wl'
      → Managed wl'
  defaults_set :
      {wl wl' : Whitelist} (c : Caller) (defaults : Statuses)
      → Managed wl
      → set_whitelist_defaults c defaults wl ≡ ok wl'
      → Managed wl'

created-Returns :
    (contract_id : ℕ) (defaults : Statuses) → Returns HasDefaults (init contract_id defaults)
unfolding init HasDefaults
created-Returns contract_id defaults =
    Returns-bind _ _ λ _ checked. returns (all_defined defaults checked)

listed-Returns :
    (c : Caller) (address : ℕ) (st : Statuses) (wl : Whitelist)
    → Returns
        (λ wl'. wl' ≡ record wl { wl_status = enter address st wl.wl_status })
        (whitelist_address c address st wl)
unfolding whitelist_address
listed-Returns c address st wl = Returns-then _ _ (returns refl)

defaults_set-Returns :
    (c : Caller) (defaults : Statuses) (wl : Whitelist)
    → Returns HasDefaults (set_whitelist_defaults c defaults wl)
unfolding set_whitelist_defaults HasDefaults
defaults_set-Returns c defaults wl =
    Returns-then _ _ (Returns-bind _ _ λ _ checked. returns (all_defined defaults checked))

Managed-HasDefaults : {wl : Whitelist} → Managed wl → HasDefaults wl
unfolding HasDefaults
Managed-HasDefaults (Managed.created contract_id defaults e) =
    Returns-eq_ok _ (created-Returns contract_id defaults) e
Managed-HasDefaults (Managed.listed {wl} c address st before e) =
    let same = Returns-eq_ok _ (listed-Returns c address st wl) e in
    rw same (Managed-HasDefaults before)
Managed-HasDefaults (Managed.defaults_set {wl} c defaults before e) =
    Returns-eq_ok _ (defaults_set-Returns c defaults wl) e

-- In a whitelist that was created and changed by calls alone, no operation of any provider has
-- the status "undefined": it is decided by the provider's own entry or by the defaults.
pub get_status-defined :
    (provider : ℕ) (operation : Operation) {wl : Whitelist}
    → Managed wl
    → is_undefined (get_status provider operation wl) ≡ false
unfolding get_status HasDefaults
get_status-defined provider operation managed =
    ground (arith, Managed-HasDefaults managed operation)

-- After `whitelist_address` the status of the address at every operation is the one given, or the
-- default where that is "undefined", and every other provider has the status that it had.
pub get_status-whitelist_address :
    (c : Caller) (address : ℕ) (st : Statuses) (provider : ℕ) (operation : Operation)
    (wl : Whitelist) {wl' : Whitelist}
    → whitelist_address c address st wl ≡ ok wl'
    → get_status provider operation wl' ≡ (
        if provider == address
        then (if is_undefined (status_at st operation)
            then status_at wl.default_status operation
            else status_at st operation)
        else get_status provider operation wl)
unfolding get_status statuses_of
get_status-whitelist_address c address st provider operation wl done =
    let same = Returns-eq_ok _ (listed-Returns c address st wl) done in
    rw same (ground (arith, entry-enter provider address st wl.wl_status))
