-- ===== src/Client/EnvFile/Kept.antt =====
-- What the environment file of cmd/wrapping-bot/main.go can change.
use wrapping_bot.Base.{
  ℕ, suc, false, List, [], ◌∷◌, Option, some, none, ◌≡◌, ◌⊎◌, inl, inr, refl, sym, ap, ◌∙◌, arith,
  Bool-cases, Option-cases,
}
use wrapping_bot.Base.Bytes.{Bytes, bytes_eq, bytes_eq_iff}
use wrapping_bot.Client.Environment.{Env, lookup, put}
use wrapping_bot.Client.EnvFile.{
  Parsed, parsed, skipped, rejected, parse_env_line, located, unset, load_lines,
}
use wrapping_bot.Shell.{has_byte}

-- A new entry changes no other.
lookup-put :
    (key other value : Bytes) (env : Env)
    → bytes_eq key other ≡ false
    → lookup other (put key value env) ≡ lookup other env
unfolding lookup put
lookup-put key other value [] e = ground arith
lookup-put key other value ((k, v) ∷ env) e = elim (Bool-cases (bytes_eq k key)) [
  | inl same ↦
      let here : bytes_eq k other ≡ false =
        ap (λ x. bytes_eq x other) ((bytes_eq_iff k key).0 same) ∙ e in
      rw (same, e, here) refl
  | inr different ↦ rw different (ground (arith, lookup-put key other value env e))
]

lookup-other :
    (key other value : Bytes) (env : Env)
    → lookup key env ≡ none
    → lookup other env ≡ some value
    → bytes_eq key other ≡ false
lookup-other key other value env missing there = elim (Bool-cases (bytes_eq key other)) [
  | inl same ↦
      let equal = (bytes_eq_iff key other).0 same in
      absurd (let clash = sym (ap (λ x. lookup x env) equal) ∙ missing in cc)
  | inr different ↦ different
]

module _ (unquote : Bytes → Option Bytes) (quoted : Bytes → Bytes) (path : Bytes) where
  abbrev load : ℕ → List Bytes → Env → Env × Option Bytes
  load = load_lines unquote quoted path

  -- What a line can do: it ends the reading, it changes nothing, or it sets a variable that is not
  -- set.
  abbrev Line : ℕ → Bytes → List Bytes → Env → Type 0
  Line n line lines env =
      ((err : Bytes) × (load n (line ∷ lines) env ≡ (env, some err)))
      ⊎ (load n (line ∷ lines) env ≡ load (suc n) lines env)
      ⊎ ((key : Bytes) × (value : Bytes) × (parse_env_line unquote quoted line
            ≡ parsed (key, value))
          × (lookup key env ≡ none)
          × (load n (line ∷ lines) env ≡ load (suc n) lines (put key value env)))

  load_lines-Line : (n : ℕ) (line : Bytes) (lines : List Bytes) (env : Env) → Line n line lines env
  unfolding load_lines
  load_lines-Line n line lines env = by_line (parse_env_line unquote quoted line) refl
    where
      by_line :
          (r : Parsed (Bytes × Bytes))
          → parse_env_line unquote quoted line ≡ r
          → Line n line lines env
      by_line (rejected err) e = inl (located path n err, rw (load_lines, e) refl)
      by_line skipped e = inr (inl (rw (load_lines, e) refl))
      by_line (parsed (key, value)) e = elim (Option-cases (lookup key env)) [
        | inr (old, found) ↦ inr (inl (rw (load_lines, e, found) refl))
        | inl missing ↦ elim (Bool-cases (has_byte value 0)) [
          | inl zero_byte ↦
              inl (located path n (unset key), rw (load_lines, e, missing, zero_byte) refl)
          | inr plain ↦ inr (inr (key, value, e, missing, rw (load_lines, e, missing, plain) refl))
        ]
      ]

  -- A variable that is set keeps its value, whatever the file holds and where its reading ends.
  pub load_lines-lookup :
      (n : ℕ) (lines : List Bytes) (env : Env) (name value : Bytes)
      → lookup name env ≡ some value
      → lookup name (load_lines unquote quoted path n lines env).0 ≡ some value
  load_lines-lookup n [] env name value there = unfold load_lines in there
  load_lines-lookup n (line ∷ lines) env name value there =
      elim (load_lines-Line n line lines env) [
        | inl (err, e) ↦ rw e there
        | inr (inl e) ↦ rw e (load_lines-lookup (suc n) lines env name value there)
        | inr (inr (key, text, _, missing, e)) ↦ rw e (
            load_lines-lookup (suc n) lines (put key text env) name value (
              lookup-put key name text env (lookup-other key name value env missing there) ∙ there))
      ]
