-- ===== src/Policy/Split.antt =====
-- The premium split: its parts add up to the premium, and the capital that it asks for covers the
-- collateral ratios of the risk module.
use ensuro.Prelude.{arith, ◌≡◌, refl, ap, ◌∙◌}
use ensuro.Prelude.Int.{
  +ℤ_parts, -ℤ_parts, ℤ, pos, ◌+ℤ◌, ◌-ℤ◌, ◌≤ℤ◌, max, int_laws, ≤?_of_le, ≤?_true, =?_true,
}
use ensuro.Prelude.Calls.{ok, Returns, returns, Returns-bind, Returns-require, Returns-eq_ok, ◌>>=◌}
use ensuro.WadRay.{WadRay, IsWadRay, ◌*W◌}
use ensuro.RiskModule.State.{RiskModule}
use ensuro.Policy.Defs.{
  Policy, Terms, junior_scr, senior_scr, roc_for_term, split_at, minimum, do_premium_split,
}

module _ ⦃w : WadRay⦄ (rm : RiskModule) (t : Terms) where
  -- What a successful split has passed.
  pub do_premium_split-Returns :
      Returns
        (λ p.
          (a : ℤ) × (b : ℤ) × (roc_for_term rm.sr_roc t.start t.expiration ≡ ok a)
          × (roc_for_term rm.jr_roc t.start t.expiration ≡ ok b)
          × (p ≡ split_at rm t a b)
          × (minimum p ≤ℤ t.premium))
        (do_premium_split rm t)
  unfolding do_premium_split
  do_premium_split-Returns = Returns-bind _ _ λ a sr. Returns-bind _ _ λ b jr.
      Returns-require _ _ _ λ enough.
        returns (a, b, sr, jr, refl, ≤?_true (minimum (split_at rm t a b)) t.premium enough)

  pub split_at_adds_up :
      (a b : ℤ)
      → let p = split_at rm t a b in
        minimum p ≤ℤ t.premium
        → (minimum p +ℤ p.partner_commission ≡ t.premium) × (pos 0 ≤ℤ p.partner_commission)
  unfolding split_at
  split_at_adds_up a b h = omega int_laws

  -- The five parts of the premium add up to it, and the partner's part is not negative.
  pub split_adds_up :
      {p : Policy}
      → do_premium_split rm t ≡ ok p
      → (p.pure_premium +ℤ p.jr_coc +ℤ p.sr_coc +ℤ p.ensuro_commission +ℤ p.partner_commission
          ≡ t.premium)
        × (pos 0 ≤ℤ p.partner_commission)
  split_adds_up {p} split =
      let (a, b, _, _, same, enough) = Returns-eq_ok _ do_premium_split-Returns split in
      let at : minimum (split_at rm t a b) ≤ℤ t.premium = rw same at enough in
      rw same (split_at_adds_up a b at)

-- The junior SCR raises the pure premium to the junior collateral, if that is more.
junior_scr_lem :
    ⦃w : WadRay⦄ (rm : RiskModule) (payout pure_premium : ℤ)
    → payout *W pos 0 ≡ pos 0
    → pos 0 ≤ℤ pure_premium
    → (pure_premium +ℤ junior_scr rm payout pure_premium
        ≡ max (payout *W rm.jr_coll_ratio) pure_premium)
      × (pos 0 ≤ℤ junior_scr rm payout pure_premium)
unfolding junior_scr
junior_scr_lem rm payout pure_premium zero_ratio h = ground (
  arith,
  zero_ratio,
  +ℤ_parts pure_premium (payout *W rm.jr_coll_ratio -ℤ pure_premium),
  -ℤ_parts (payout *W rm.jr_coll_ratio) pure_premium,
  +ℤ_parts pure_premium (pos 0),
  =?_true rm.jr_coll_ratio (pos 0),
)

senior_scr_lem :
    ⦃w : WadRay⦄ (rm : RiskModule) (payout pure_premium jr_scr : ℤ)
    → (pure_premium +ℤ jr_scr +ℤ senior_scr rm payout pure_premium jr_scr
        ≡ max (payout *W rm.coll_ratio) (pure_premium +ℤ jr_scr))
      × (pos 0 ≤ℤ senior_scr rm payout pure_premium jr_scr)
unfolding senior_scr
senior_scr_lem rm payout pure_premium jr_scr = grind int_laws

-- The policy with a premium of `q`, what that adds going to the partner.
abbrev pub raise_premium : ℤ → Policy → Policy
raise_premium q p = record p {
  premium = q;
  partner_commission = p.partner_commission +ℤ (q -ℤ p.premium);
}

module _ ⦃w : WadRay⦄ (rm : RiskModule) (t : Terms) {p : Policy} where
  -- With a pure premium that is not negative, the capital of a new policy is what is missing from
  -- its pure premium to the two collaterals: the pure premium and the junior SCR make the larger of
  -- the pure premium and the junior collateral, and with the senior SCR the larger of that and the
  -- whole collateral. Neither SCR is negative.
  pub split_covers :
      IsWadRay w
      → do_premium_split rm t ≡ ok p
      → pos 0 ≤ℤ p.pure_premium
      → (p.pure_premium +ℤ p.jr_scr ≡ max (t.payout *W rm.jr_coll_ratio) p.pure_premium)
        × (p.pure_premium +ℤ p.jr_scr +ℤ p.sr_scr
            ≡ max (t.payout *W rm.coll_ratio) (p.pure_premium +ℤ p.jr_scr))
        × (pos 0 ≤ℤ p.jr_scr)
        × (pos 0 ≤ℤ p.sr_scr)
  unfolding split_at
  split_covers laws split =
      let (a, b, _, _, same, _) = Returns-eq_ok _ (do_premium_split-Returns rm t) split in
      rw same λ h.
        let pure = t.payout *W t.loss_prob *W rm.moc in
        let junior = junior_scr_lem rm t.payout pure (laws.mul_zero t.payout) h in
        let senior = senior_scr_lem rm t.payout pure (junior_scr rm t.payout pure) in
        (junior.0, senior.0, junior.1, senior.1)

module _ ⦃w : WadRay⦄ (rm : RiskModule) (t : Terms) where
  raised :
      (a b q : ℤ) → split_at rm (record t { premium = q }) a b ≡ raise_premium q (split_at rm t a b)
  unfolding split_at
  raised a b q =
      let new = split_at rm (record t { premium = q }) a b in
      let more : new.partner_commission ≡ (raise_premium q (split_at rm t a b)).partner_commission =
        omega int_laws in
      ap (λ c. record new { partner_commission = c }) more

  split_at_more_premium :
      (a b q : ℤ)
      → roc_for_term rm.sr_roc t.start t.expiration ≡ ok a
      → roc_for_term rm.jr_roc t.start t.expiration ≡ ok b
      → minimum (split_at rm (record t { premium = q }) a b) ≤ℤ q
      → do_premium_split rm (record t { premium = q })
        ≡ ok (split_at rm (record t { premium = q }) a b)
  unfolding do_premium_split ◌>>=◌
  split_at_more_premium a b q sr jr enough =
      let test = ≤?_of_le (minimum (split_at rm (record t { premium = q }) a b)) q enough in
      rw (sr, jr, test)

  -- A higher premium for the same terms is accepted too, and all that it adds goes to the partner.
  pub split_more_premium :
      {p : Policy} (q : ℤ)
      → do_premium_split rm t ≡ ok p
      → t.premium ≤ℤ q
      → do_premium_split rm (record t { premium = q }) ≡ ok (raise_premium q p)
  split_more_premium {p} q split h = go (Returns-eq_ok _ (do_premium_split-Returns rm t) split)
    where
      go :
          (a : ℤ) × (b : ℤ) × (roc_for_term rm.sr_roc t.start t.expiration ≡ ok a)
            × (roc_for_term rm.jr_roc t.start t.expiration ≡ ok b)
            × (p ≡ split_at rm t a b)
            × (minimum p ≤ℤ t.premium)
          → do_premium_split rm (record t { premium = q }) ≡ ok (raise_premium q p)
      go (a, b, sr, jr, same, enough) =
          let small : minimum (split_at rm t a b) ≤ℤ t.premium = rw same at enough in
          let now : minimum (split_at rm (record t { premium = q }) a b) ≤ℤ q =
            rw (raised a b q) (omega (arith, small)) in
          split_at_more_premium a b q sr jr now ∙ ap ok (raised a b q ∙ rw same)
