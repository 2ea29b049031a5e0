-- ===== src/AssetManager/Payments.antt =====
-- A reserve together with its asset manager: `ReserveMixin._transfer_to` where `refill_wallet` is the
-- strategy's own, on the vaults (prototype/ensuro.py).
use ensuro.Prelude.{ℕ, ◌≡◌, ◌≢◌, refl, sym, ◌∙◌, arith, false, ap, some, Bool-cases, ◌⊎◌, inl, inr}
use ensuro.Prelude.Int.{
  ℤ, pos, ◌+ℤ◌, ◌-ℤ◌, ◌≤ℤ◌, ◌<ℤ◌, ◌<?◌, min, ◌=?◌, int_laws, <?_true, <?_false,
}
use ensuro.Prelude.Calls.{
  Result, ok, ◌>>=◌, Returns, returns, Returns-bind, Returns-require, Returns-map, Returns-eq_ok,
}
use ensuro.Outside.{Outside, negligible}
use ensuro.Outside.Laws.{IsCurrency}
use ensuro.Reserve.{transfer_to, refill_if_short}
use ensuro.Reserve.Transfers.{transfer_to_lem}
use ensuro.AssetManager.Defs.{Manager, Hooks, refill_wallet}
use ensuro.AssetManager.Liquidity.{MovesCash, refill_wallet_lem}
use ensuro.AssetManager.Vaults.{Fund}

module _ {L W R : Type 0} where
  -- A call of the currency on the reserve's fund.
  unfoldable pub on_currency : (W → Result W) → Manager × Fund L W R → Result (Manager × Fund L W R)
  on_currency call (m, s) = do out ← call s.out; ok (m, record s { out = out })

  -- The outside of a reserve with its manager: the currency is the fund's, and `refill_wallet` is the
  -- manager's.
  abbrev pub managed : Outside W → Hooks (Fund L W R) → Outside (Manager × Fund L W R)
  managed o h = record {
    decimals = o.decimals;
    balance_of = λ x a. o.balance_of x.1.out a;
    allowance = λ x a c. o.allowance x.1.out a c;
    transfer = λ from to amount. on_currency (o.transfer from to amount);
    transfer_from = λ caller from to amount. on_currency (o.transfer_from caller from to amount);
    approve = λ owner spender amount. on_currency (o.approve owner spender amount);
    mint = λ to amount. on_currency (o.mint to amount);
    refill_wallet = λ manager amount x. refill_wallet ⦃h = h⦄ amount x.0 x.1;
    accepts_deposit = λ x. o.accepts_deposit x.1.out;
    accepts_withdrawal = λ x. o.accepts_withdrawal x.1.out;
    accepts_transfer = λ x. o.accepts_transfer x.1.out;
  }

  on_currency-Returns :
      (call : W → Result W) (x : Manager × Fund L W R)
      → Returns (λ y. (call x.1.out ≡ ok y.1.out) × (y.0 ≡ x.0)) (on_currency call x)
  unfolding on_currency
  on_currency-Returns call (m, s) = Returns-bind _ _ λ out called. returns (called, refl)

  managed-IsCurrency :
      (o : Outside W) (h : Hooks (Fund L W R)) → IsCurrency o → IsCurrency (managed o h)
  managed-IsCurrency o h currency = record {
    transfer = λ from to amount x y apart done.
        currency.transfer from to amount x.1.out y.1.out apart
          (Returns-eq_ok _ (on_currency-Returns (o.transfer from to amount) x) done).0;
    transfer_from = λ caller from to amount x y apart done.
        currency.transfer_from caller from to amount x.1.out y.1.out apart
          (Returns-eq_ok _ (on_currency-Returns (o.transfer_from caller from to amount) x) done).0;
    mint = λ to amount x y done.
        currency.mint to amount x.1.out y.1.out
          (Returns-eq_ok _ (on_currency-Returns (o.mint to amount) x) done).0;
  }

module _ {L W R : Type 0} (o : Outside W) (h : Hooks (Fund L W R)) (self : ℕ) where
  abbrev pub cash : Manager × Fund L W R → ℤ
  cash x = o.balance_of x.1.out self

  -- A payment from cash, which the manager is not asked for.
  abbrev pub FromCash : ℤ → Manager × Fund L W R → Manager × Fund L W R → Type 0
  FromCash amount x y = (amount ≤ℤ cash x) × (cash y ≡ cash x -ℤ amount) × (y.0 ≡ x.0)

  -- A payment after a refill. What is sent is the amount, or the cash that there was where a
  -- negligible amount was lacking.
  pub record Refilled (amount : ℤ) (x y : Manager × Fund L W R) : Type 0 where
    pub short : cash x <ℤ amount
    pub value : ℤ
    pub worth : h.value x.1 ≡ ok value
    pub sent : ℤ
    pub size : (sent ≡ amount) ⊎ ((sent ≡ cash x) × (amount -ℤ sent <ℤ negligible o))
    pub left : cash y ≡ min (amount +ℤ x.0.liquidity_middle) (cash x +ℤ value) -ℤ sent
    pub balanced : y.0.last_investment_value +ℤ cash y +ℤ sent ≡ x.0.last_investment_value +ℤ cash x

  record-Returns :
      (manager target : ℕ) (amount : ℤ) (x : Manager × Fund L W R)
      → amount ≢ pos 0
      → Returns
          (λ y.
            (x1 : Manager × Fund L W R) × (refill_if_short ⦃o = managed o h⦄
                (some manager)
                (cash x)
                amount
                x
              ≡ ok x1)
            × (y.0 ≡ x1.0))
          (transfer_to ⦃o = managed o h⦄ self (some manager) target amount x)
  unfolding transfer_to
  record-Returns manager target amount x some_amount =
      let test : (amount =? pos 0) ≡ false = ground arith in
      Returns-require _ _ _ λ _. rw test (
        Returns-bind _ _ λ x1 refilled.
          Returns-map _ (on_currency-Returns _ x1) λ y (_, same). (x1, refilled, same))

  ok_injective : {A : Type 0} {a c : A} → ok a ≡ ok c → a ≡ c
  ok_injective e = cc

  refilled_lem :
      (manager : ℕ) (amount : ℤ) (x x1 : Manager × Fund L W R)
      → refill_if_short ⦃o = managed o h⦄ (some manager) (cash x) amount x ≡ ok x1
      → ((amount ≤ℤ cash x) × (x1 ≡ x))
        ⊎ ((cash x <ℤ amount) × (refill_wallet ⦃h = h⦄ amount x.0 x.1 ≡ ok x1))
  unfolding refill_if_short
  refilled_lem manager amount x x1 done = elim (Bool-cases (cash x <? amount)) [
    | inl short ↦ inr (<?_true (cash x) amount short, rw short at done)
    | inr enough ↦
        let same : ok x ≡ ok x1 = rw enough at done in inl (<?_false (cash x) amount enough, cc)
  ]

  put_back : (a c sent : ℤ) → a +ℤ (c -ℤ sent) +ℤ sent ≡ a +ℤ c
  put_back a c sent = omega int_laws

  paid_lem :
      ((s : Fund L W R) → h.cash s ≡ o.balance_of s.out self)
      → (manager : ℕ) (amount sent : ℤ) (x y z : Manager × Fund L W R) → MovesCash h x.1
      → refill_if_short ⦃o = managed o h⦄ (some manager) (cash x) amount x ≡ ok z
      → cash y ≡ cash z -ℤ sent
      → y.0 ≡ z.0
      → (sent ≡ amount) ⊎ ((sent ≡ cash x) × (sent <ℤ amount) × (amount -ℤ sent <ℤ negligible o))
      → FromCash amount x y ⊎ Refilled amount x y
  paid_lem is_cash manager amount sent x y z moves refilled left kept size =
      elim (refilled_lem manager amount x z refilled) [
        | inl (enough, untouched) ↦
            let whole : sent ≡ amount = elim size [
              | inl all ↦ all
              | inr (part, less, _) ↦
                  absurd (let lacks : cash x <ℤ amount = rw part at less in omega arith)
            ] in
            let same_cash = ap (λ u. cash u) untouched in
            inl (enough, rw (left, whole, same_cash) refl, kept ∙ ap (λ u. u.0) untouched)
        | inr (short, called) ↦
            let (value, worth, after, total) =
              refill_wallet_lem ⦃h = h⦄ x.0 x.1 moves amount called in
            let cash_z : cash z ≡ min (amount +ℤ x.0.liquidity_middle) (cash x +ℤ value) =
              rw (← is_cash z.1, ← is_cash x.1) after in
            let total_z : z.0.last_investment_value +ℤ cash z
                ≡ x.0.last_investment_value +ℤ cash x =
              rw (← is_cash z.1, ← is_cash x.1) total in
            inr (record {
              short = short;
              value = value;
              worth = worth;
              sent = sent;
              size = elim size [ inl all ↦ inl all | inr (part, _, little) ↦ inr (part, little) ];
              left = rw left (ap (λ c. c -ℤ sent) cash_z);
              balanced =
                  rw (kept, left) (put_back z.0.last_investment_value (cash z) sent ∙ total_z);
            })
      ]

  -- Under a currency that moves what it is asked to, and a manager that moves what it is asked to
  -- between its investments and the reserve's cash, a payment of an amount other than 0 to another
  -- address is made from the cash, where that is enough, and the manager is left alone. Otherwise the
  -- reserve pays after a refill, the amount or the cash that it had where a negligible amount was
  -- lacking, and what it keeps is the middle threshold on top of the amount asked, or all cash and
  -- investments where they are less, without what was sent. The cash, the recorded value of the
  -- investments and what was sent add up to what they did before.
  pub payment_lem :
      IsCurrency o
      → ((s : Fund L W R) → h.cash s ≡ o.balance_of s.out self)
      → (manager target : ℕ) (amount : ℤ) (x : Manager × Fund L W R) {y : Manager × Fund L W R}
      → MovesCash h x.1
      → self ≢ target
      → amount ≢ pos 0
      → transfer_to ⦃o = managed o h⦄ self (some manager) target amount x ≡ ok y
      → FromCash amount x y ⊎ Refilled amount x y
  payment_lem currency is_cash manager target amount x {y} moves apart some_amount done =
      let sent =
        transfer_to_lem ⦃o = managed o h⦄ (managed-IsCurrency o h currency) self (some manager)
          target amount x apart some_amount done in
      let (x1, refilled, same) =
        Returns-eq_ok _ (record-Returns manager target amount x some_amount) done in
      let same_state = ok_injective (sym refilled ∙ sent.refill) in
      paid_lem is_cash manager amount sent.sent x y sent.refilled moves sent.refill sent.moved.0
        (same ∙ ap (λ z. z.0) same_state) sent.size
