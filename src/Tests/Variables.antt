-- ===== src/Tests/Variables.antt =====
-- Environment variables of a configuration file at a concrete input.
use ensuro.Prelude.{ℕ, ◌≡◌, Option, none, some, List, [], ◌∷◌, ◌++◌, ◌⊎◌}
use ensuro.Prelude.Calls.{Result, ok, err, Fault, ◌>>=◌}
use ensuro.Config.Variables.{Variable, IsVariable, written, envvar_constructor}
use ensuro.Config.Expansion.{envvar_constructor_lem}

-- An environment without variables: the default is taken.
abbrev no_variables : List ℕ → Option (List ℕ) → Result (List ℕ)
no_variables name none = err Fault.outside
no_variables name (some text) = ok text

-- `${A_1:-x}y`
abbrev home : Variable
home = record { name = 65 ∷ 95 ∷ 49 ∷ []; default = some (120 ∷ []); rest = 121 ∷ [] }

envvar_constructor_lem_example :
    ((m : Variable) × (written home ≡ written m)
      × IsVariable m
      × (envvar_constructor no_variables (written home)
          ≡ (no_variables m.name m.default >>= λ expanded. ok (expanded ++ m.rest))))
    ⊎ ((¬ ((m : Variable) × IsVariable m × (written home ≡ written m)))
        × (envvar_constructor no_variables (written home) ≡ err Fault.attribute_error))
envvar_constructor_lem_example = envvar_constructor_lem no_variables (written home)
