-- ===== src/Executor/Configuration.antt =====
-- ParseStepConfiguration of pkg/trax/step_configuration.go. Decoding a text as JSON is a parameter.
use Prim.Native.Char.{code}
use trax.Prelude.{
  ℤ, pos, negsuc, ℕ, zero, suc, inl, inr, Bool-cases, String, ◌<◌, Bool, Option, none, some, List,
  [], ◌∷◌, all, eqb, leb, arith, ◌&&◌, ◌||◌, if◌then◌else◌,
}
use trax.Model.{StringMap, map_get}

pub record StepConfiguration : Type 0 where
  pub execution_timeout_msec : ℤ
  pub compensation_timeout_msec : ℤ

abbrev pub default_step_timeout_msec : ℕ
default_step_timeout_msec = 180000

-- The code points of a text.
abbrev codes : String → List ℕ
codes String.[] = []
codes (String.◌∷◌ c s) = code c ∷ codes s

-- unicode.IsSpace
unfoldable pub is_space : ℕ → Bool
is_space c =
    (leb 9 c && leb c 13)
    || eqb c 32
    || eqb c 0x85
    || eqb c 0xA0
    || eqb c 0x1680
    || (leb 0x2000 c && leb c 0x200a)
    || eqb c 0x2028
    || eqb c 0x2029
    || eqb c 0x202f
    || eqb c 0x205f
    || eqb c 0x3000

-- `strings.TrimSpace(raw) == ""`
unfoldable pub is_blank : String → Bool
unfolding is_space
is_blank raw = all is_space (codes raw)

-- A timeout that is positive, or the default.
abbrev pub timeout_or_default : ℤ → ℕ
timeout_or_default (pos (suc n)) = suc n
timeout_or_default _ = default_step_timeout_msec

timeout_positive : (t : ℤ) → 0 < timeout_or_default t
timeout_positive (pos zero) = omega arith
timeout_positive (pos (suc n)) = omega arith
timeout_positive (negsuc n) = omega arith

module _ (decode : String → Option StepConfiguration) where
  unfoldable pub decoded : Option StepConfiguration → ℕ × ℕ
  decoded none = (default_step_timeout_msec, default_step_timeout_msec)
  decoded (some c) =
      (timeout_or_default c.execution_timeout_msec, timeout_or_default c.compensation_timeout_msec)

  unfoldable pub configured : Option String → ℕ × ℕ
  unfolding decoded is_blank
  configured none = (default_step_timeout_msec, default_step_timeout_msec)
  configured (some raw) =
      if is_blank raw
      then (default_step_timeout_msec, default_step_timeout_msec)
      else decoded (decode raw)

  -- The timeouts of executions and of compensations.
  unfoldable pub parse_step_configuration : StringMap → ℕ × ℕ
  unfolding configured map_get
  parse_step_configuration metadata = configured (map_get "step_configuration" metadata)

  decoded_positive : (o : Option StepConfiguration) → (0 < (decoded o).0) × (0 < (decoded o).1)
  unfolding decoded
  decoded_positive none = omega arith
  decoded_positive (some c) =
      (timeout_positive c.execution_timeout_msec, timeout_positive c.compensation_timeout_msec)

  configured_positive : (o : Option String) → (0 < (configured o).0) × (0 < (configured o).1)
  unfolding configured
  configured_positive none = omega arith
  configured_positive (some raw) = elim (Bool-cases (is_blank raw)) [
    | inl e ↦ rw e (omega arith)
    | inr e ↦ rw e (decoded_positive (decode raw))
  ]

  -- Whatever the metadata are and however texts decode, both timeouts are positive.
  pub parse_step_configuration-positive :
      (metadata : StringMap)
      → (0 < (parse_step_configuration metadata).0) × (0 < (parse_step_configuration metadata).1)
  unfolding parse_step_configuration
  parse_step_configuration-positive metadata =
      configured_positive (map_get "step_configuration" metadata)
