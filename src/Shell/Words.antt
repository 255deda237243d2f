-- ===== src/Shell/Words.antt =====
-- What a POSIX shell reads from quoted words: a reference reader of words, and the round trip of
-- `shellQuote` and `formatCommand` through it.
use wrapping_bot.Base.{
  ℕ, Bool, true, false, ◌&&◌, ◌||◌, List, [], ◌∷◌, ◌++◌, Option, some, none, ◌≡◌, ◌≢◌, refl, sym,
  ap, ◌∙◌, ◌⊎◌, arith, leb, ◌==◌, if◌then◌else◌, map, length, append_assoc, append-nil, Bool-cases,
  inl, inr,
}
use wrapping_bot.Base.Bytes.{Bytes, replace_from, replace_all, join}
use wrapping_bot.Shell.{quote, is_safe, all_safe, quoted_quote, shell_quote, format_command, blank}

-- Where the reader stands: between words, or in a word, outside quotes or in one of the two kinds.
pub data Mode : Type 0 where
  between bare single double : Mode

-- The characters that a shell takes as they are outside quotes.
abbrev pub literal : ℕ → Bool
literal c =
    leb b'a' c && leb c b'z'
    || leb b'A' c && leb c b'Z'
    || leb b'0' c && leb c b'9'
    || c == b'_'
    || c == b'@'
    || c == b'%'
    || c == b'+'
    || c == b'='
    || c == b':'
    || c == b','
    || c == b'.'
    || c == b'/'
    || c == b'-'

-- The characters that keep a meaning in double quotes.
abbrev pub special : ℕ → Bool
special c = c == b'$' || c == b'`' || c == b'\\' || c == b'!'

abbrev pub put : ℕ → Option (List Bytes) → Option (List Bytes)
put c none = none
put c (some []) = none
put c (some (w ∷ ws)) = some ((c ∷ w) ∷ ws)

abbrev pub word : Option (List Bytes) → Option (List Bytes)
word none = none
word (some ws) = some ([] ∷ ws)

-- The words of a line. In single quotes all is kept up to the next one; in double quotes all but a
-- special character; outside quotes a blank ends a word. A line that a shell would read in any other
-- way has no reading here.
pub read_words : Mode → Bytes → Option (List Bytes)
read_words between [] = some []
read_words bare [] = some ([] ∷ [])
read_words single [] = none
read_words double [] = none
read_words between (c ∷ s) =
    let blank_more = read_words between s in
    let in_single = read_words single s in
    let in_double = read_words double s in
    let in_bare = put c (read_words bare s) in
    if c == b' '
    then blank_more
    else if c == quote
    then in_single
    else if c == b'"'
    then in_double
    else if literal c
    then in_bare
    else none
read_words bare (c ∷ s) =
    let ended = word (read_words between s) in
    let in_single = read_words single s in
    let in_double = read_words double s in
    let in_bare = put c (read_words bare s) in
    if c == b' '
    then ended
    else if c == quote
    then in_single
    else if c == b'"'
    then in_double
    else if literal c
    then in_bare
    else none
read_words single (c ∷ s) =
    let ended = read_words bare s in
    let more = put c (read_words single s) in if c == quote then ended else more
read_words double (c ∷ s) =
    let ended = read_words bare s in
    let more = put c (read_words double s) in
    if c == b'"' then ended else if special c then none else more

-- The text `pre` in front of the first word.
abbrev pub before : Bytes → Option (List Bytes) → Option (List Bytes)
before [] r = r
before (c ∷ pre) r = put c (before pre r)

is_safe-literal : (c : ℕ) → is_safe c ≡ literal c
unfolding is_safe
is_safe-literal c = ground arith

read_words-safe :
    (v rest : Bytes)
    → all_safe v ≡ true
    → read_words bare (v ++ rest) ≡ before v (read_words bare rest)
unfolding read_words all_safe
read_words-safe [] rest h = refl
read_words-safe (c ∷ v) rest h = ground (arith, is_safe-literal c, read_words-safe v rest)

-- In single quotes, each quote written as '"'"' is read as a quote.
read_words-quoted :
    (v rest : Bytes)
    → read_words single (replace_all v (quote ∷ []) quoted_quote ++ quote ∷ rest)
      ≡ before v (read_words bare rest)
unfolding read_words replace_from
read_words-quoted [] rest = refl
read_words-quoted (c ∷ v) rest = ground (arith, read_words-quoted v rest)

append-quoted :
    (v rest : Bytes)
    → (quote ∷ (replace_all v (quote ∷ []) quoted_quote ++ quote ∷ [])) ++ rest
      ≡ quote ∷ (replace_all v (quote ∷ []) quoted_quote ++ quote ∷ rest)
append-quoted v rest =
    ap (λ t. quote ∷ t) (append_assoc (replace_all v (quote ∷ []) quoted_quote) (quote ∷ []) rest)

-- A quoted value is read as the value, in front of what follows.
read_words-shell_quote :
    (v rest : Bytes) → read_words between (shell_quote v ++ rest) ≡ before v (read_words bare rest)
unfolding read_words shell_quote
read_words-shell_quote [] rest = refl
read_words-shell_quote (c ∷ v) rest = elim (Bool-cases (all_safe (c ∷ v))) [
  | inl safe ↦ rw (safe, if◌then◌else◌) (ground (arith, is_safe-literal c, read_words-safe v rest))
  | inr unsafe ↦
      rw (unsafe, if◌then◌else◌)
        (ap (read_words between) (append-quoted (c ∷ v) rest) ∙ read_words-quoted (c ∷ v) rest)
]

before-some : (v w : Bytes) (ws : List Bytes) → before v (some (w ∷ ws)) ≡ some ((v ++ w) ∷ ws)
before-some [] w ws = refl
before-some (c ∷ v) w ws = rw (before-some v w ws)

read_words-blank : (s : Bytes) → read_words bare (blank ++ s) ≡ word (read_words between s)
unfolding read_words
read_words-blank s = refl

read_words-join :
    (arg : Bytes) (args : List Bytes)
    → read_words between (join (map shell_quote (arg ∷ args)) blank) ≡ some (arg ∷ args)
unfolding join
read_words-join arg [] =
    ap (read_words between) (sym (append-nil (shell_quote arg)))
    ∙ read_words-shell_quote arg []
    ∙ unfold read_words in before-some arg [] [] ∙ ap (λ w. some (w ∷ [])) (append-nil arg)
read_words-join arg (next ∷ args) =
    read_words-shell_quote arg (blank ++ join (map shell_quote (next ∷ args)) blank)
    ∙ ap (before arg) (
        read_words-blank (join (map shell_quote (next ∷ args)) blank)
        ∙ ap word (read_words-join next args))
    ∙ before-some arg [] (next ∷ args)
    ∙ ap (λ w. some (w ∷ next ∷ args)) (append-nil arg)

-- A shell reads the formatted command as its arguments, whatever bytes they hold, empty ones too;
-- except where a single argument is itself a shell command, which is left as it is.
pub read_words-format_command :
    (args : List Bytes) (shell : Bool)
    → (shell ≡ false) ⊎ (length args ≢ 1)
    → read_words between (format_command args shell) ≡ some args
unfolding format_command
read_words-format_command [] shell h = unfold read_words in refl
read_words-format_command (arg ∷ []) shell (inl e) = rw e (read_words-join arg [])
read_words-format_command (arg ∷ []) shell (inr e) = absurd (e refl)
read_words-format_command (arg ∷ next ∷ args) shell h = read_words-join arg (next ∷ args)
