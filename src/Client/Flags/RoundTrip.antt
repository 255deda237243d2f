-- ===== src/Client/Flags/RoundTrip.antt =====
-- Arguments that spell options of cmd/wrapping-bot/main.go are read as those.
use wrapping_bot.Base.{
  false, ◌||◌, List, [], ◌∷◌, ◌++◌, some, none, ◌≡◌, inl, inr, refl, ◌∙◌, arith, ◌==◌, map, All,
  Bool-cases,
}
use wrapping_bot.Base.Bytes.{Bytes, str, bytes_eq}
use wrapping_bot.Base.Result.{Result, ok, ok_then, ok_then-ok_then}
use wrapping_bot.Client.Environment.{cut_entry}
use wrapping_bot.Client.Flags.{
  Options, Outside, Flag, client_env_flag, flag_name, all_flags, find_flag, is_bool_flag, flagged,
  read_name, read_argument, set_flag, take_flag, take_found, take_argument, parse_flags,
}

-- An option as `--name=value`.
abbrev pub spell : Flag × Bytes → Bytes
spell (f, value) = str "--" ++ (flag_name f ++ (b'=' ∷ value))

-- No `=` among the bytes.
abbrev IsName : Bytes → Type 0
IsName = All (λ c. (c == b'=') ≡ false)

cut_entry-name :
    (name value : Bytes) → IsName name → cut_entry (name ++ (b'=' ∷ value)) ≡ some (name, value)
unfolding cut_entry
cut_entry-name [] value h = ground arith
cut_entry-name (c ∷ name) value (hc, h) = rw (cut_entry-name name value h, hc) refl

flag_name-IsName : (f : Flag) → IsName (flag_name f)
flag_name-IsName client_env_flag = ground arith
flag_name-IsName _ = ground arith

find_flag-name : (f : Flag) → find_flag all_flags (flag_name f) ≡ some f
unfolding find_flag bytes_eq
find_flag-name client_env_flag = refl
find_flag-name _ = refl

-- A name that begins with neither `-` nor `=`.
abbrev Begins : Bytes → Type 0
Begins [] = ⊥
Begins (c ∷ s) = (c == b'-' || c == b'=') ≡ false

flag_name-Begins : (f : Flag) → Begins (flag_name f)
flag_name-Begins client_env_flag = refl
flag_name-Begins _ = refl

read_name-flagged :
    (name value : Bytes)
    → Begins name
    → IsName name
    → read_argument (b'-' ∷ b'-' ∷ (name ++ (b'=' ∷ value))) ≡ flagged name (some value)
unfolding read_argument read_name
read_name-flagged [] value b h = absurd b
read_name-flagged (c ∷ name) value b h = rw (b, cut_entry-name (c ∷ name) value h) refl

read_argument-spell :
    (f : Flag) (value : Bytes)
    → read_argument (spell (f, value)) ≡ flagged (flag_name f) (some value)
read_argument-spell f value =
    read_name-flagged (flag_name f) value (flag_name-Begins f) (flag_name-IsName f)

module _ (lib : Outside) where
  unfoldable pub set_all : List (Flag × Bytes) → Options → Result Options
  unfolding set_flag
  set_all [] o = ok o
  set_all ((f, value) ∷ given) o = ok_then (set_flag lib f value o) (λ o1. set_all given o1)

  -- One option more.
  parse_flags-spell :
      (f : Flag) (value : Bytes) (args : List Bytes) (o : Options)
      → parse_flags lib none (spell (f, value) ∷ args) o
        ≡ ok_then (set_flag lib f value o) (λ o1. parse_flags lib none args o1)
  unfolding parse_flags take_argument take_found take_flag
  parse_flags-spell f value args o = elim (Bool-cases (is_bool_flag f)) [
    | inl flag ↦ rw (parse_flags, read_argument-spell f value, find_flag-name f, flag) refl
    | inr text ↦ rw (parse_flags, read_argument-spell f value, find_flag-name f, text) refl
  ]

  -- Options that are spelled `--name=value` and end in `--` are set one after another, up to the first
  -- that has no valid value, and all that follows is left as it is, whatever it looks like.
  pub parse_flags-spelled :
      (given : List (Flag × Bytes)) (command : List Bytes) (o : Options)
      → parse_flags lib none (map spell given ++ (str "--" ∷ command)) o
        ≡ ok_then (set_all given o) (λ o1. ok (o1, command))
  unfolding set_all
  parse_flags-spelled [] command o = unfold parse_flags take_argument read_argument ok_then in refl
  parse_flags-spelled ((f, value) ∷ given) command o =
      parse_flags-spell f value (map spell given ++ (str "--" ∷ command)) o
      ∙ ok_then-ok_then (set_flag lib f value o) _ _ _ (λ o1. parse_flags-spelled given command o1)
