-- ===== src/Access/Origins.antt =====
-- `normalize_origin` of crates/api/src/auth.rs and `checked_origins` of crates/api/src/handlers.rs. The
-- names of the characters are those of ASCII.
use bot_flow.Prelude.{
  ℕ, zero, suc, ◌+◌, ◌*◌, ◌-◌, ◌/◌, ◌%◌, Text, text_eq, codes, lower, Option, none, some, List, [],
  ◌∷◌, ◌++◌, Bool, false, not, ◌&&◌, ◌||◌, ◌==◌, leb, ltb, length, drop, map, is_empty, starts_with,
  trim, if◌then◌else◌,
}
use bot_flow.Outcome.{Result, ok, err, client}
use bot_flow.Access.{member}

abbrev pub cons_first : ℕ → Option (Text × Text) → Option (Text × Text)
cons_first c none = none
cons_first c (some (a, b)) = some (c ∷ a, b)

-- `str::split_once`, at the first occurrence of a pattern.
unfoldable pub split_once : Text → Text → Option (Text × Text)
split_once p [] = if is_empty p then some ([], []) else none
split_once p (c ∷ s) =
    let rest = split_once p s in
    if starts_with (c ∷ s) p then some ([], drop (length p) (c ∷ s)) else cons_first c rest

abbrev pub split_here : ℕ → ℕ → Text → Option (Text × Text) → Option (Text × Text)
split_here p c s none = if c == p then some ([], s) else none
split_here p c s (some (a, b)) = some (c ∷ a, b)

-- `str::rsplit_once`, at the last occurrence of a character.
unfoldable pub rsplit_once : ℕ → Text → Option (Text × Text)
rsplit_once p [] = none
rsplit_once p (c ∷ s) = split_here p c s (rsplit_once p s)

-- `strip_suffix('/').unwrap_or(…)`
unfoldable pub strip_slash : Text → Text
strip_slash [] = []
strip_slash (c ∷ []) = if c == 47 then [] else c ∷ []
strip_slash (c ∷ d ∷ s) = c ∷ strip_slash (d ∷ s)

unfoldable pub has_forbidden : Text → Bool
has_forbidden [] = false
has_forbidden (c ∷ s) = c == 47 || c == 63 || c == 35 || c == 64 || c == 32 || has_forbidden s

-- The digits of a number, read after those before them; `none` at another character or over 65535.
unfoldable pub read_digits : ℕ → Text → Option ℕ
read_digits n [] = some n
read_digits n (c ∷ s) =
    let m = n * 10 + (c - 48) in
    let rest = read_digits m s in if leb 48 c && leb c 57 && leb m 65535 then rest else none

abbrev pub read_number : Text → Option ℕ
read_number [] = none
read_number (c ∷ s) = read_digits 0 (c ∷ s)

-- `str::parse::<u16>`, which takes a leading `+`.
unfoldable pub parse_u16 : Text → Option ℕ
unfolding read_digits
parse_u16 [] = none
parse_u16 (c ∷ s) = if c == 43 then read_number s else read_number (c ∷ s)

-- A number in decimal; a `u16` has five digits at most.
unfoldable pub decimal_digits : ℕ → ℕ → Text → Text
decimal_digits zero n acc = acc
decimal_digits (suc fuel) n acc =
    let rest = decimal_digits fuel (n / 10) ((48 + n % 10) ∷ acc) in
    if ltb n 10 then (48 + n) ∷ acc else rest

abbrev pub decimal : ℕ → Text
decimal n = decimal_digits 5 n []

-- `rest` into the host and the port; `none` if there is a port that is no `u16`.
unfoldable pub host_and_port : Text → Option (Text × Option ℕ)
unfolding rsplit_once parse_u16
host_and_port rest = elim (rsplit_once 58 rest) [
  | none ↦ some (rest, none)
  | some hp ↦ elim (parse_u16 hp.1) [ none ↦ none | some p ↦ some (hp.0, some p) ]
]

unfoldable pub explicit_port : Text → Option ℕ → Option ℕ
explicit_port scheme none = none
explicit_port scheme (some p) =
    if (text_eq scheme (codes "https") && p == 443) || (text_eq scheme (codes "http") && p == 80)
    then none
    else some p

abbrev pub port_suffix : Option ℕ → Text
port_suffix none = []
port_suffix (some p) = codes ":" ++ decimal p

unfoldable pub format_origin : Text → Text × Option ℕ → Option Text
unfolding explicit_port lower
format_origin scheme (host, port) =
    if is_empty host
    then none
    else some (scheme ++ codes "://" ++ map lower host ++ port_suffix (explicit_port scheme port))

unfoldable pub origin_of : Text × Text → Option Text
unfolding has_forbidden host_and_port format_origin lower strip_slash
origin_of (raw_scheme, raw_rest) =
    let scheme = map lower raw_scheme in
    let rest = strip_slash raw_rest in
    if not (text_eq scheme (codes "http")) && not (text_eq scheme (codes "https"))
    then none
    else if is_empty rest || has_forbidden rest
    then none
    else elim (host_and_port rest) [ none ↦ none | some hp ↦ format_origin scheme hp ]

unfoldable pub normalize_origin : Text → Option Text
unfolding split_once origin_of lower
normalize_origin raw =
    let s = trim raw in
    if is_empty s || text_eq (map lower s) (codes "null")
    then none
    else elim (split_once (codes "://") s) [ none ↦ none | some parts ↦ origin_of parts ]

unfoldable pub push_new : List Text → Text → List Text
push_new out o = if member o out then out else out ++ o ∷ []

-- The loop over the entries.
unfoldable pub normalize_all : List Text → List Text → Result (List Text)
unfolding push_new normalize_origin
normalize_all out [] = ok out
normalize_all out (o ∷ raw) = elim (normalize_origin o) [
  | none ↦ err (client 422 "not a valid origin; expected scheme://host[:port]")
  | some n ↦ normalize_all (push_new out n) raw
]

abbrev pub needs_origin : Text → Result (List Text) → Result (List Text)
needs_origin kind (err e) = err e
needs_origin kind (ok out) =
    if text_eq kind (codes "publishable") && is_empty out
    then err (client 422 "a publishable key needs at least one allowed origin")
    else ok out

unfoldable pub checked_origins : Text → List Text → Result (List Text)
unfolding normalize_all
checked_origins kind raw = needs_origin kind (normalize_all [] raw)
