-- ===== src/World.antt =====
-- What a premiums account and the pool act on beside their own state: the time, the eTokens by
-- address, and what is outside of the pool. An eToken that two accounts use is one entry.
use ensuro.Prelude.{ℕ, ◌==◌, if◌then◌else◌}
use ensuro.Prelude.Int.{ℤ}
use ensuro.Prelude.Calls.{Result, ok, ◌>>=◌}
use ensuro.EToken.State.{EToken}

pub record World (L W : Type 0) : Type 0 where
  pub now : ℤ
  pub etk : ℕ → EToken L
  pub out : W

module _ {L W : Type 0} where
  unfoldable pub put_etk : ℕ → EToken L → World L W → World L W
  put_etk a e s = record s { etk = λ k. if a == k then e else s.etk k }

  -- A call of a method that changes the eToken alone.
  unfoldable pub on_etk : ℕ → (EToken L → W → Result (EToken L)) → World L W → Result (World L W)
  on_etk a method s = do e ← method (s.etk a) s.out; ok (put_etk a e s)

  -- A call of a method that moves currency too.
  unfoldable pub on_etk_out :
      ℕ → (EToken L → W → Result (EToken L × W)) → World L W → Result (World L W)
  on_etk_out a method s = do r ← method (s.etk a) s.out; ok (record (put_etk a r.0 s) { out = r.1 })

  unfoldable pub on_etk_value :
      ℕ → (EToken L → W → Result (ℤ × EToken L × W)) → World L W → Result (ℤ × World L W)
  on_etk_value a method s = do
    r ← method (s.etk a) s.out
    ok (r.0, record (put_etk a r.1 s) { out = r.2 })
