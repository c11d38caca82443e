-- ===== src/Chunk.antt =====
-- crates/common/src/chunk.rs: how a document's text becomes chunks.
pub mod Blank
pub mod Budget
use bot_flow.Prelude.{
  ℕ, zero, suc, ◌+◌, ◌-◌, ◌≤◌, Text, text_eq, codes, Option, none, some, List, [], ◌∷◌, ◌++◌, Bool,
  true, false, ◌&&◌, ◌||◌, not, ltb, leb, ◌==◌, min, max, reverse, length, take, drop, filter,
  is_empty, starts_with, contains, trim, if◌then◌else◌,
}

abbrev pub chunk_size : ℕ
chunk_size = 500

abbrev pub chunk_overlap : ℕ
chunk_overlap = 60

-- `[String]::concat`
unfoldable pub concat : List Text → Text
concat [] = []
concat (p ∷ ps) = p ++ concat ps

-- The `while` loop of `chunk_text`; a round moves `start` on by `step`, which is positive.
unfoldable pub windows : ℕ → Text → ℕ → ℕ → ℕ → List Text
windows zero chars size step start = []
windows (suc fuel) chars size step start =
    let stop = min (start + size) (length chars) in
    let piece = trim (take (stop - start) (drop start chars)) in
    let rest = if stop == length chars then [] else windows fuel chars size step (start + step) in
    let pushed = if is_empty piece then rest else piece ∷ rest in
    if ltb start (length chars) then pushed else []

unfoldable pub chunk_text : Text → ℕ → ℕ → List Text
unfolding windows
chunk_text text size overlap = windows (length text) text size (max (size - overlap) 1) 0

abbrev pub separators : List Text
separators =
    codes "\n\n"
    ∷ codes "\n"
    ∷ codes ". "
    ∷ codes "? "
    ∷ codes "! "
    ∷ codes "; "
    ∷ codes ", "
    ∷ codes " "
    ∷ []

abbrev pub is_blank : Text → Bool
is_blank t = is_empty (trim t)

-- `str::split` at a text that is not empty: `skip` characters of a match are still to be passed.
unfoldable pub split_at : Text → ℕ → Text → Text → List Text
split_at sep skip part [] = part ∷ []
split_at sep (suc skip) part (c ∷ s) = split_at sep skip part s
split_at sep zero part (c ∷ s) = elim (starts_with (c ∷ s) sep) [
  | true ↦ part ∷ split_at sep (length sep - 1) [] s
  | false ↦ split_at sep zero (part ++ c ∷ []) s
]

-- `with_sep`: the separator stays on the part before it.
unfoldable pub keep_separator : Text → List Text → List Text
keep_separator sep [] = []
keep_separator sep (p ∷ []) = p ∷ []
keep_separator sep (p ∷ q ∷ ps) = (p ++ sep) ∷ keep_separator sep (q ∷ ps)

-- `slice::chunks`, the cut in the middle of a word.
unfoldable pub hard_cut : ℕ → Text → ℕ → List Text
hard_cut zero text size = []
hard_cut (suc fuel) [] size = []
hard_cut (suc fuel) (c ∷ s) size = take size (c ∷ s) ∷ hard_cut fuel (drop size (c ∷ s)) size

-- The loop over the parts, with the call for a part that is still too long.
unfoldable pub fit_parts : (Text → List Text) → ℕ → List Text → List Text
fit_parts deeper size [] = []
fit_parts deeper size (p ∷ ps) =
    let rest = fit_parts deeper size ps in
    if is_blank p then rest else if ltb size (length p) then deeper p ++ rest else p ∷ rest

-- The last argument is `SEPARATORS` from `sep_index` on.
unfoldable pub split_to_size : Text → ℕ → List Text → List Text
unfolding hard_cut fit_parts split_at keep_separator
split_to_size text size [] =
    if leb (length text) size then text ∷ [] else hard_cut (length text) text size
split_to_size text size (sep ∷ seps) =
    let unsplit = split_to_size text size seps in
    let parts = keep_separator sep (split_at sep 0 [] text) in
    let pieces = fit_parts (λ p. split_to_size p size seps) size parts in
    if leb (length text) size then text ∷ [] else if contains text sep then pieces else unsplit

-- Whole trailing pieces, from the last one back, until the overlap is spent.
unfoldable pub carry : ℕ → List Text → List Text → ℕ → List Text × ℕ
carry overlap [] carried carried_len = (carried, carried_len)
carry overlap (prev ∷ more) carried carried_len =
    let next = carry overlap more (prev ∷ carried) (carried_len + length prev) in
    if ltb overlap (carried_len + length prev) then (carried, carried_len) else next

-- The variables of the loop of `merge_with_overlap`.
pub record Packing : Type 0 where
  pub chunks : List Text
  pub current : List Text
  pub current_len : ℕ

-- A piece that does not fit closes the current chunk.
unfoldable pub make_room : ℕ → ℕ → Packing → Text → Packing
unfolding carry
make_room size overlap s piece =
    let (carried, carried_len) = carry overlap (reverse s.current) [] 0 in
    if ltb size (s.current_len + length piece) && not (is_empty s.current)
    then record {
      chunks = s.chunks ++ trim (concat s.current) ∷ [];
      current = carried;
      current_len = carried_len;
    }
    else s

unfoldable pub pack : ℕ → ℕ → Packing → Text → Packing
unfolding make_room
pack size overlap s piece =
    let t = make_room size overlap s piece in
    record t { current = t.current ++ piece ∷ []; current_len = t.current_len + length piece }

unfoldable pub pack_all : ℕ → ℕ → Packing → List Text → Packing
unfolding pack
pack_all size overlap s [] = s
pack_all size overlap s (p ∷ ps) = pack_all size overlap (pack size overlap s p) ps

abbrev pub unpacked : Packing
unpacked = record { chunks = []; current = []; current_len = 0 }

-- What follows the loop: the last chunk, and `retain`.
unfoldable pub finish_packing : Packing → List Text
unfolding concat
finish_packing s =
    let last = trim (concat s.current) in
    filter (λ c. not (is_blank c))
      (if is_empty s.current || is_empty last then s.chunks else s.chunks ++ last ∷ [])

unfoldable pub merge_with_overlap : List Text → ℕ → ℕ → List Text
unfolding pack_all finish_packing
merge_with_overlap pieces size overlap = finish_packing (pack_all size overlap unpacked pieces)

unfoldable pub chunk_text_recursive : Text → ℕ → ℕ → List Text
unfolding split_to_size merge_with_overlap
chunk_text_recursive text size overlap =
    if is_blank text || size == 0
    then []
    else merge_with_overlap (split_to_size text size separators) size overlap

pub record Chunk : Type 0 where
  pub text : Text
  pub char_start : ℕ
  pub char_end : ℕ

-- The range of `find_from`: `tries` starts from `i` on.
unfoldable pub find_in : ℕ → Text → Text → ℕ → Option ℕ
find_in zero haystack needle i = none
find_in (suc tries) haystack needle i =
    let next = find_in tries haystack needle (i + 1) in
    if text_eq (take (length needle) (drop i haystack)) needle then some i else next

unfoldable pub find_from : Text → Text → ℕ → Option ℕ
unfolding find_in
find_from haystack needle start =
    if is_empty needle || ltb (length haystack) (length needle)
    then none
    else find_in (length haystack - length needle + 1 - start) haystack needle start

abbrev or_else : Option ℕ → ℕ → ℕ
or_else none d = d
or_else (some i) d = i

unfoldable pub locate : Text → List Text → ℕ → List Chunk
unfolding find_from
locate chars [] cursor = []
locate chars (c ∷ cs) cursor =
    let start = or_else (find_from chars c cursor) cursor in
    record { text = c; char_start = start; char_end = start + length c } ∷ locate chars cs start

unfoldable pub chunk_with_spans : Text → ℕ → ℕ → List Chunk
unfolding locate chunk_text_recursive
chunk_with_spans text size overlap = locate text (chunk_text_recursive text size overlap) 0
