-- ===== src/Agent/Arguments.antt =====
-- cpp/client/main.cpp: what `parse_args` makes of the arguments.
use sys_net_mon.Base.{
  ℤ, pos, negsuc, ℕ, ◌+◌, ◌≤◌, Bool, true, false, ◌||◌, List, [], ◌∷◌, Bytes, if◌then◌else◌,
  Outcome, returned, threw, undefined, ◌>>=◌, bind_assoc, bind_cong, ◌≡◌, refl, ap, sym, ◌∙◌, arith,
  Bool-cases, inl, inr,
}
use sys_net_mon.Decimal.{atoi}
use sys_net_mon.Agent.{AgentConfig, set_argument, is_flag, parse_loop, default_config, parse_args}

-- the arguments that are no flag, and whether there is a flag
unfoldable pub positional : List Bytes → List Bytes
positional [] = []
positional (a ∷ xs) = if is_flag a then positional xs else a ∷ positional xs

unfoldable pub has_flag : List Bytes → Bool
has_flag [] = false
has_flag (a ∷ xs) = is_flag a || has_flag xs

abbrev pub with_flag : Bool → AgentConfig → AgentConfig
with_flag b config = record config { daemonize = b }

abbrev pub flagged : Bool → AgentConfig → Outcome AgentConfig
flagged b config = returned (with_flag b config)

-- An argument that is no flag does not touch the flag, and is not touched by it.
set_argument-flag :
    (index : ℕ) (a : Bytes) (b : Bool) (config : AgentConfig)
    → set_argument index a (with_flag b config) ≡ (set_argument index a config >>= flagged b)
unfolding set_argument
set_argument-flag index a b config = elim (atoi a) [
  | returned n ↦ ground arith
  | threw ↦ ground arith
  | undefined ↦ ground arith
]

parse_loop-flag :
    (index : ℕ) (xs : List Bytes) (b : Bool) (config : AgentConfig)
    → parse_loop index (positional xs) (with_flag b config)
      ≡ (parse_loop index (positional xs) config >>= flagged b)
unfolding parse_loop positional
parse_loop-flag index [] b config = refl
parse_loop-flag index (a ∷ xs) b config = elim (Bool-cases (is_flag a)) [
  | inl flag ↦ rw flag (parse_loop-flag index xs b config)
  | inr other ↦
      rw (other, other)
        (ap (λ m. m >>= parse_loop (index + 1) (positional xs))
            (set_argument-flag (index + 1) a b config)
          ∙ bind_assoc (set_argument (index + 1) a config) (flagged b) _
          ∙ bind_cong (set_argument (index + 1) a config) _ _
              (λ c _. parse_loop-flag (index + 1) xs b c)
          ∙ sym (bind_assoc (set_argument (index + 1) a config) _ (flagged b)))
]

set_argument-daemonize_at :
    (index : ℕ) (a : Bytes) (config c : AgentConfig) (m : Outcome ℤ)
    → atoi a ≡ m
    → set_argument index a config ≡ returned c
    → c.daemonize ≡ config.daemonize
unfolding set_argument
set_argument-daemonize_at index a config c (returned n) eq h = ground arith
set_argument-daemonize_at index a config c threw eq h = ground arith
set_argument-daemonize_at index a config c undefined eq h = ground arith

set_argument-daemonize :
    (index : ℕ) (a : Bytes) (config c : AgentConfig)
    → set_argument index a config ≡ returned c
    → c.daemonize ≡ config.daemonize
set_argument-daemonize index a config c h =
    set_argument-daemonize_at index a config c (atoi a) refl h

or_false : (b : Bool) → (b || false) ≡ b
or_false true = refl
or_false false = refl

or_true : (b : Bool) → (b || true) ≡ true
or_true true = refl
or_true false = refl

parse_loop-positional :
    (index : ℕ) (xs : List Bytes) (config : AgentConfig)
    → parse_loop index xs config
      ≡ (parse_loop index (positional xs) config >>= flagged (config.daemonize || has_flag xs))
unfolding parse_loop positional has_flag
parse_loop-positional index [] config = ap (λ b. flagged b config) (sym (or_false config.daemonize))
parse_loop-positional index (a ∷ xs) config = elim (Bool-cases (is_flag a)) [
  | inl flag ↦ rw flag (
      parse_loop-positional index xs (with_flag true config)
      ∙ ap (λ m. m >>= flagged true) (parse_loop-flag index xs true config)
      ∙ bind_assoc (parse_loop index (positional xs) config) (flagged true) (flagged true)
      ∙ ap (λ b. parse_loop index (positional xs) config >>= flagged b)
          (sym (or_true config.daemonize)))
  | inr other ↦
      rw (other, other)
        (bind_cong (set_argument (index + 1) a config) _ _ (λ c h.
            parse_loop-positional (index + 1) xs c
            ∙ ap (λ b. parse_loop (index + 1) (positional xs) c >>= flagged (b || has_flag xs))
                (set_argument-daemonize (index + 1) a config c h))
          ∙ sym (bind_assoc (set_argument (index + 1) a config) _ _))
]

-- The flag may stand anywhere among the arguments: it sets `daemonize`, and the others are read xs
-- if it were not there.
pub parse_args-positional :
    (name : Bytes) (xs : List Bytes)
    → parse_args name xs ≡ (parse_args name (positional xs) >>= flagged (has_flag xs))
unfolding parse_args
parse_args-positional name xs = parse_loop-positional 0 xs (default_config name)

-- the interval is a second or more
abbrev pub IsPositive : ℤ → Type 0
IsPositive (pos n) = 1 ≤ n
IsPositive (negsuc n) = ⊥
