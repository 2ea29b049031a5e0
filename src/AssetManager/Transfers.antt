-- ===== src/AssetManager/Transfers.antt =====
-- What the managers of vaults move in and out of the reserve's cash (prototype/ensuro.py).
use ensuro.Prelude.{ℕ, ◌≡◌, ◌≢◌, refl, ◌∙◌, Bool-cases, inl, inr}
use ensuro.Prelude.Int.{ℤ, pos, ◌+ℤ◌, ◌-ℤ◌, ◌=?◌, =?_true, min, int_laws}
use ensuro.Prelude.Calls.{
  Result, Returns, returns, Returns-bind, Returns-after, Returns-map, Returns-eq_ok,
}
use ensuro.WadRay.{WadRay}
use ensuro.Outside.{Outside, TokenBase}
use ensuro.Outside.Laws.{IsCurrency}
use ensuro.Vault.Defs.{Vault, deposit}
use ensuro.Vault.Shares.{withdraw-owner}
use ensuro.AssetManager.Liquidity.{MovesCash}
use ensuro.AssetManager.Vaults.{
  Fund, vault_deposit, vault_withdraw, discretionary_withdraw, if_some, plus_deinvest, vault_hooks,
  plus_hooks,
}

module _ {L W : Type 0} ⦃w : WadRay⦄ ⦃b : TokenBase L⦄ ⦃o : Outside W⦄ where
  deposit-Returns :
      IsCurrency o
      → (now : ℤ) (reserve : ℕ) (amount : ℤ) (v : Vault L) (x : W) → reserve ≢ v.contract_id
      → Returns
          (λ r. o.balance_of r.2 reserve ≡ o.balance_of x reserve -ℤ amount)
          (deposit now reserve amount reserve v x)
  unfolding deposit
  deposit-Returns currency now reserve amount v x apart = Returns-bind _ _ λ shares _.
      Returns-bind _ _ λ total _. Returns-bind _ _ λ x' moved. Returns-bind _ _ λ base _.
        returns
          (currency.transfer_from v.contract_id reserve v.contract_id amount x x' apart moved).0

module _ {L W R : Type 0} ⦃w : WadRay⦄ ⦃b : TokenBase L⦄ ⦃o : Outside W⦄ (currency : IsCurrency o)
    (now : ℤ) (reserve : ℕ) where
  -- A call after which the reserve has `amount` more, and the other vault is as it was.
  Brings : (Fund L W R → ℤ → Fund L W R → Type 0)
  Brings s amount s' =
      (o.balance_of s'.out reserve ≡ o.balance_of s.out reserve +ℤ amount)
      × (s'.discretionary.contract_id ≡ s.discretionary.contract_id)

  vault_withdraw-Returns :
      (amount : ℤ) (s : Fund L W R)
      → reserve ≢ s.vault.contract_id
      → Returns (Brings s amount) (vault_withdraw now reserve amount s)
  unfolding vault_withdraw Brings
  vault_withdraw-Returns amount s apart = Returns-bind _ _ λ r done.
      let (_, _, more) =
        withdraw-owner currency now reserve amount reserve reserve s.vault s.out apart done in
      returns (more, refl)

  discretionary_withdraw-Returns :
      (amount : ℤ) (s : Fund L W R)
      → reserve ≢ s.discretionary.contract_id
      → Returns
          (λ s'. o.balance_of s'.out reserve ≡ o.balance_of s.out reserve +ℤ amount)
          (discretionary_withdraw now reserve amount s)
  unfolding discretionary_withdraw
  discretionary_withdraw-Returns amount s apart = Returns-bind _ _ λ r done.
      let (_, _, more) =
        withdraw-owner currency now reserve amount reserve reserve s.discretionary s.out apart
          done in
      returns more

  pub plus_deinvest-Returns :
      (amount : ℤ) (s : Fund L W R)
      → reserve ≢ s.vault.contract_id
      → reserve ≢ s.discretionary.contract_id
      → Returns
          (λ s'. o.balance_of s'.out reserve ≡ o.balance_of s.out reserve +ℤ amount)
          (plus_deinvest now reserve amount s)
  unfolding plus_deinvest if_some Brings
  plus_deinvest-Returns amount s apart apart' = Returns-bind _ _ λ available _.
      let vault_amount = min amount available in
      Returns-after _ _ (first vault_amount) λ s' _ (e, same_id).
        Returns-map _ (second (amount -ℤ vault_amount) s' (λ same. apart' (same ∙ same_id)))
          λ s'' e'. rw (e', e) (omega int_laws)
    where
      first : (part : ℤ) → Returns (Brings s part) (if_some (vault_withdraw now reserve) part s)
      first part = elim (Bool-cases (part =? pos 0)) [
        | inl nothing ↦
            let zero_part = =?_true part (pos 0) nothing in
            rw nothing (returns (rw zero_part (omega int_laws), refl))
        | inr something ↦ rw something (vault_withdraw-Returns part s apart)
      ]

      second :
          (part : ℤ) (s' : Fund L W R)
          → reserve ≢ s'.discretionary.contract_id
          → Returns
              (λ s''. o.balance_of s''.out reserve ≡ o.balance_of s'.out reserve +ℤ part)
              (if_some (discretionary_withdraw now reserve) part s')
      second part s' other = elim (Bool-cases (part =? pos 0)) [
        | inl nothing ↦
            let zero_part = =?_true part (pos 0) nothing in
            rw nothing (returns (rw zero_part (omega int_laws)))
        | inr something ↦ rw something (discretionary_withdraw-Returns part s' other)
      ]

  vault_deposit-Returns :
      (amount : ℤ) (s : Fund L W R)
      → reserve ≢ s.vault.contract_id
      → Returns
          (λ s'. o.balance_of s'.out reserve ≡ o.balance_of s.out reserve -ℤ amount)
          (vault_deposit now reserve amount s)
  unfolding vault_deposit
  vault_deposit-Returns amount s apart =
      Returns-after _ _ (deposit-Returns currency now reserve amount s.vault s.out apart)
        λ r _ less. returns less

  -- Under a currency that moves what it is asked to, the manager of one vault, which is not the
  -- reserve, meets the strategy's contract: what it invests leaves the reserve's cash, and what it
  -- deinvests enters it, exactly.
  pub vault_hooks-MovesCash :
      (earn : ℤ → R → Result R) (s : Fund L W R)
      → reserve ≢ s.vault.contract_id
      → MovesCash (vault_hooks now reserve earn) s
  unfolding Brings
  vault_hooks-MovesCash earn s apart = record {
    into = λ amount s' moved. Returns-eq_ok _ (vault_deposit-Returns amount s apart) moved;
    out_of = λ amount s' moved. (Returns-eq_ok _ (vault_withdraw-Returns amount s apart) moved).0;
  }

  -- Under a currency that moves what it is asked to, the manager of two vaults, which are not the
  -- reserve, meets the strategy's contract too: what it invests leaves the reserve's cash, and
  -- what it deinvests enters it, exactly.
  pub plus_hooks-MovesCash :
      (earn : ℤ → R → Result R) (s : Fund L W R)
      → reserve ≢ s.vault.contract_id
      → reserve ≢ s.discretionary.contract_id
      → MovesCash (plus_hooks now reserve earn) s
  plus_hooks-MovesCash earn s apart apart' = record {
    into = λ amount s' moved. Returns-eq_ok _ (vault_deposit-Returns amount s apart) moved;
    out_of = λ amount s' moved. Returns-eq_ok _ (plus_deinvest-Returns amount s apart apart') moved;
  }
