-- ===== src/Client/Environment/Selected.antt =====
-- Which entries `collectEnvironment` of cmd/wrapping-bot/main.go lets out.
use wrapping_bot.Base.{
  ℕ, ◌≤◌, Bool, true, false, not, ◌&&◌, ◌||◌, List, [], ◌∷◌, ◌≡◌, ◌⊎◌, inl, inr, refl, subst, arith,
  ltb, leb, if◌then◌else◌, map, length, length-take, length-map, take, All, All-take, Bool-cases,
  Option-cases, if_both,
}
use wrapping_bot.Base.Bytes.{Bytes, bytes_eq, bytes_eq_iff}
use wrapping_bot.Client.Environment.{
  Env, lookup, put, all_environment, looks_sensitive, limited_value, any_prefix, add_environment,
  add_keys, add_prefixed, limit_entries, collect_environment,
}
use wrapping_bot.Client.Environment.Truncate.{length-limited_value}
use wrapping_bot.Daemon.Format.{bytes_le, insert_key, sort_keys, get_env}

-- Among the keys of a map.
abbrev HasKey : Env → Bytes → Type 0
HasKey [] key = ⊥
HasKey ((k, v) ∷ env) key = (k ≡ key) ⊎ HasKey env key

HasKey-keys :
    (pre : Bytes × Bytes) (env : Env) (keys : List Bytes)
    → All (HasKey env) keys
    → All (HasKey (pre ∷ env)) keys
HasKey-keys pre env [] h = tt
HasKey-keys pre env (key ∷ keys) (here, h) = (inr here, HasKey-keys pre env keys h)

own_keys : (env : Env) → All (HasKey env) (map (λ kv. kv.0) env)
own_keys [] = tt
own_keys ((k, v) ∷ env) = (inl refl, HasKey-keys (k, v) env (map (λ kv. kv.0) env) (own_keys env))

-- What holds of all keys holds of all of them in another order.
module _ (P : Bytes → Type 0) where
  insert_key-All : (k : Bytes) (ks : List Bytes) → P k → All P ks → All P (insert_key k ks)
  unfolding insert_key
  insert_key-All k [] hk h = (hk, tt)
  insert_key-All k (j ∷ ks) hk (hj, h) =
      if_both (All P) (bytes_le k j) (hk, (hj, h)) (hj, insert_key-All k ks hk h)

  sort_keys-All : (ks : List Bytes) → All P ks → All P (sort_keys ks)
  unfolding sort_keys
  sort_keys-All [] h = tt
  sort_keys-All (k ∷ ks) (hk, h) = insert_key-All k (sort_keys ks) hk (sort_keys-All ks h)

module _ (P : Bytes × Bytes → Type 0) where
  get_env-All : (key : Bytes) (env : Env) → HasKey env key → All P env → P (key, get_env key env)
  unfolding get_env
  get_env-All key [] here h = absurd here
  get_env-All key ((k, v) ∷ env) here (hk, h) = elim (Bool-cases (bytes_eq k key)) [
    | inl same ↦ rw same (subst (λ x. P (x, v)) ((bytes_eq_iff k key).0 same) hk)
    | inr other ↦ rw other (elim here [
      | inl e ↦ absurd (let same = (bytes_eq_iff k key).1 e in cc)
      | inr later ↦ get_env-All key env later h
    ])
  ]

  put-All : (key value : Bytes) (env : Env) → P (key, value) → All P env → All P (put key value env)
  unfolding put
  put-All key value [] new h = (new, tt)
  put-All key value ((k, v) ∷ env) new (hk, h) =
      if_both (All P) (bytes_eq k key) (new, h) (hk, put-All key value env new h)

  entries-All :
      (env : Env) (keys : List Bytes)
      → All P env
      → All (HasKey env) keys
      → All P (map (λ key. (key, get_env key env)) keys)
  entries-All env [] h here = tt
  entries-All env (key ∷ keys) h (hk, here) =
      (get_env-All key env hk h, entries-All env keys h here)

not_rejected :
    (n : ℕ) (allowed sensitive : Bool)
    → (leb n 0 || ltb 128 n || not allowed && sensitive) ≡ false
    → (1 ≤ n) × (n ≤ 128) × ((allowed ≡ true) ⊎ (sensitive ≡ false))
not_rejected n true sensitive e = (ground arith, ground arith, inl refl)
not_rejected n false true e = absurd (ground arith)
not_rejected n false false e = (ground arith, ground arith, inr refl)

module _ (to_upper : Bytes → Bytes) (allow_secrets : Bool) where
  -- An entry that may be sent along.
  abbrev pub MayLeave : Bytes × Bytes → Type 0
  MayLeave (key, value) =
      (1 ≤ length key)
      × (length key ≤ 128)
      × (length value ≤ 515)
      × ((allow_secrets ≡ true) ⊎ (looks_sensitive to_upper key ≡ false))

  add_environment-cases :
      (key value : Bytes) (target : Env)
      → (add_environment to_upper allow_secrets key value target ≡ target)
        ⊎ (1 ≤ length key)
          × (length key ≤ 128)
          × ((allow_secrets ≡ true) ⊎ (looks_sensitive to_upper key ≡ false))
          × (add_environment to_upper allow_secrets key value target
              ≡ put key (limited_value value) target)
  unfolding add_environment
  add_environment-cases key value target =
      elim (Bool-cases (
        leb (length key) 0
        || ltb 128 (length key)
        || not allow_secrets && looks_sensitive to_upper key)) [
          | inl stays ↦ rw stays (inl refl)
          | inr leaves ↦
              let (full, short, fine) =
                not_rejected (length key) allow_secrets (looks_sensitive to_upper key) leaves in
              rw leaves (inr (full, short, fine, refl))
        ]

  add_environment-All :
      (key value : Bytes) (target : Env)
      → All MayLeave target
      → All MayLeave (add_environment to_upper allow_secrets key value target)
  add_environment-All key value target h = elim (add_environment-cases key value target) [
    | inl same ↦ rw same h
    | inr (full, short, fine, same) ↦ rw same (
        put-All MayLeave key (limited_value value) target
          (full, short, length-limited_value value, fine) h)
  ]

  add_keys-All :
      (all : Env) (keys : List Bytes) (selected : Env)
      → All MayLeave selected
      → All MayLeave (add_keys to_upper allow_secrets all keys selected)
  unfolding add_keys
  add_keys-All all [] selected h = h
  add_keys-All all (key ∷ keys) selected h = elim (Option-cases (lookup key all)) [
    | inl missing ↦ rw (missing, add_keys) (add_keys-All all keys selected h)
    | inr (value, found) ↦
        rw (found, add_keys)
          (add_keys-All all keys (add_environment to_upper allow_secrets key value selected)
            (add_environment-All key value selected h))
  ]

  add_prefixed-All :
      (prefixes : List Bytes) (all selected : Env)
      → All MayLeave selected
      → All MayLeave (add_prefixed to_upper allow_secrets prefixes all selected)
  unfolding add_prefixed
  add_prefixed-All prefixes [] selected h = h
  add_prefixed-All prefixes ((key, value) ∷ all) selected h =
      add_prefixed-All prefixes all
        (if any_prefix key prefixes
          then add_environment to_upper allow_secrets key value selected
          else selected)
        (if_both (All MayLeave) (any_prefix key prefixes) (add_environment-All key value selected h)
          h)

  limit_entries-All :
      (selected : Env)
      → All MayLeave selected
      → All MayLeave (limit_entries to_upper allow_secrets selected)
        × (length (limit_entries to_upper allow_secrets selected) ≤ 128)
  unfolding limit_entries
  limit_entries-All selected h = elim (Bool-cases (leb (length selected) 128)) [
    | inl few ↦ rw few (h, ground arith)
    | inr many ↦ rw many (
        let keys = sort_keys (map (λ kv. kv.0) selected) in
        (
          entries-All MayLeave selected (take 128 keys) h (
              All-take (HasKey selected) 128 keys
                (sort_keys-All (HasKey selected) (map (λ kv. kv.0) selected) (own_keys selected))),
          omega (
            arith,
            length-map {B = Bytes × Bytes} (λ key. (key, get_env key selected)) (take 128 keys),
            length-take 128 keys,
          ),
        ))
  ]

  -- Whatever the environment and whatever keys and prefixes are asked for: at most 128 entries are
  -- sent along, each with a key of 1 to 128 bytes and a value of at most 515, and unless secrets are
  -- allowed no key looks sensitive.
  pub collect_environment-MayLeave :
      (environ keys prefixes : List Bytes)
      → All MayLeave (collect_environment to_upper allow_secrets environ keys prefixes)
        × (length (collect_environment to_upper allow_secrets environ keys prefixes) ≤ 128)
  unfolding collect_environment
  collect_environment-MayLeave environ keys prefixes =
      let all = all_environment environ [] in
      limit_entries-All
        (add_prefixed to_upper allow_secrets prefixes all
          (add_keys to_upper allow_secrets all keys []))
        (add_prefixed-All prefixes all (add_keys to_upper allow_secrets all keys [])
          (add_keys-All all keys [] tt))
