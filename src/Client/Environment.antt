-- ===== src/Client/Environment.antt =====
-- The environment that cmd/wrapping-bot/main.go sends along: `collectEnvironment` and what it calls.
-- A map is a list of its entries, each key once; Go goes through a map in any order, and the model in
-- that of the list. `to_upper` stands for `strings.ToUpper`, whose tables of letters are not modelled.
pub mod Selected
pub mod Truncate
use wrapping_bot.Base.{
  ℕ, Bool, true, false, not, ◌&&◌, ◌||◌, List, [], ◌∷◌, ◌++◌, Option, some, none, ltb, leb, ◌==◌,
  if◌then◌else◌, map, length, take, drop, ◌-◌,
}
use wrapping_bot.Base.Bytes.{Bytes, str, is_empty, bytes_eq, has_prefix, contains, has_text}
use wrapping_bot.Daemon.Format.{sort_keys, get_env}
use wrapping_bot.Text.Split.{back_to_rune}

abbrev pub Env : Type 0
Env = List (Bytes × Bytes)

-- `strings.Cut(entry, "=")`
unfoldable pub cut_entry : Bytes → Option (Bytes × Bytes)
cut_entry [] = none
cut_entry (c ∷ s) = elim (cut_entry s) [
  | some (key, value) ↦ if c == b'=' then some ([], s) else some (c ∷ key, value)
  | none ↦ if c == b'=' then some ([], s) else none
]

unfoldable pub lookup : Bytes → Env → Option Bytes
lookup key [] = none
lookup key ((k, v) ∷ env) = if bytes_eq k key then some v else lookup key env

-- `target[key] = value`
unfoldable pub put : Bytes → Bytes → Env → Env
put key value [] = (key, value) ∷ []
put key value ((k, v) ∷ env) =
    if bytes_eq k key then (key, value) ∷ env else (k, v) ∷ put key value env

-- The map of all entries of `os.Environ`; a later one counts.
unfoldable pub all_environment : List Bytes → Env → Env
unfolding cut_entry put
all_environment [] env = env
all_environment (entry ∷ entries) env = elim (cut_entry entry) [
  | some (key, value) ↦ all_environment entries (put key value env)
  | none ↦ all_environment entries env
]

abbrev pub is_separator : ℕ → Bool
is_separator c = c == b'_' || c == b'-' || c == b'.'

-- `strings.FieldsFunc`, with the field that is being read; an empty field is none.
unfoldable pub fields_from : Bytes → Bytes → List Bytes
fields_from field [] = if is_empty field then [] else field ∷ []
fields_from field (c ∷ s) =
    let next = fields_from [] s in
    let same = fields_from (field ++ (c ∷ [])) s in
    if is_separator c then (if is_empty field then next else field ∷ next) else same

abbrev pub sensitive_words : List Bytes
sensitive_words =
    str "TOKEN"
    ∷ str "SECRET"
    ∷ str "PASSWORD"
    ∷ str "PASSWD"
    ∷ str "CREDENTIAL"
    ∷ str "CREDENTIALS"
    ∷ str "COOKIE"
    ∷ str "AUTH"
    ∷ str "AUTHORIZATION"
    ∷ str "PRIVATEKEY"
    ∷ str "PRIVATE"
    ∷ []

unfoldable pub any_sensitive : List Bytes → Bool
any_sensitive [] = false
any_sensitive (part ∷ parts) = has_text sensitive_words part || any_sensitive parts

-- `strings.HasSuffix`
unfoldable pub has_suffix : Bytes → Bytes → Bool
has_suffix s suffix =
    leb (length suffix) (length s) && bytes_eq (drop (length s - length suffix) s) suffix

unfoldable pub looks_sensitive : (Bytes → Bytes) → Bytes → Bool
unfolding fields_from any_sensitive has_suffix
looks_sensitive to_upper key =
    let upper = to_upper key in
    any_sensitive (fields_from [] upper)
    || has_suffix upper (str "_KEY")
    || contains upper (str "API_KEY")
    || contains upper (str "PRIVATE_KEY")

unfoldable pub truncate_utf8 : Bytes → ℕ → Bytes
unfolding back_to_rune
truncate_utf8 value max_bytes =
    if leb (length value) max_bytes then value else take (back_to_rune value max_bytes) value

unfoldable pub limited_value : Bytes → Bytes
unfolding truncate_utf8
limited_value value = if ltb 512 (length value) then truncate_utf8 value 512 ++ str "…" else value

unfoldable pub any_prefix : Bytes → List Bytes → Bool
unfolding has_prefix
any_prefix key [] = false
any_prefix key (prefix ∷ prefixes) =
    not (is_empty prefix) && has_prefix key prefix || any_prefix key prefixes

module _ (to_upper : Bytes → Bytes) (allow_secrets : Bool) where
  unfoldable pub add_environment : Bytes → Bytes → Env → Env
  unfolding looks_sensitive limited_value put
  add_environment key value target =
      if leb (length key) 0
        || ltb 128 (length key)
        || not allow_secrets && looks_sensitive to_upper key
      then target
      else put key (limited_value value) target

  unfoldable pub add_keys : Env → List Bytes → Env → Env
  unfolding add_environment lookup
  add_keys all [] selected = selected
  add_keys all (key ∷ keys) selected = elim (lookup key all) [
    | some value ↦ add_keys all keys (add_environment key value selected)
    | none ↦ add_keys all keys selected
  ]

  unfoldable pub add_prefixed : List Bytes → Env → Env → Env
  unfolding add_environment any_prefix
  add_prefixed prefixes [] selected = selected
  add_prefixed prefixes ((key, value) ∷ all) selected =
      let wider =
        if any_prefix key prefixes then add_environment key value selected else selected in
      add_prefixed prefixes all wider

  -- At most 128 entries, those of the first keys in their order.
  unfoldable pub limit_entries : Env → Env
  unfolding sort_keys get_env
  limit_entries selected =
      if leb (length selected) 128
      then selected
      else map (λ key. (key, get_env key selected))
          (take 128 (sort_keys (map (λ kv. kv.0) selected)))

  unfoldable pub collect_environment : List Bytes → List Bytes → List Bytes → Env
  unfolding all_environment add_keys add_prefixed limit_entries
  collect_environment environ keys prefixes =
      let all = all_environment environ [] in
      limit_entries (add_prefixed prefixes all (add_keys all keys []))
