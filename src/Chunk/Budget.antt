-- ===== src/Chunk/Budget.antt =====
-- How long pieces and chunks can get: `split_to_size` and `merge_with_overlap` of
-- crates/common/src/chunk.rs.
use bot_flow.Prelude.{
  ℕ, zero, suc, ◌+◌, ◌≤◌, Text, List, [], ◌∷◌, ◌++◌, ◌≡◌, refl, Bool, true, false, not, ◌&&◌, ◌||◌,
  ◌==◌, ltb, leb, arith, length, drop, filter, All, All-append, is_empty, contains, trim,
  length-append, length-take, reverse, Bool-cases, inl, inr, if◌then◌else◌,
}
use bot_flow.Chunk.{
  concat, separators, is_blank, hard_cut, fit_parts, split_to_size, carry, Packing, make_room, pack,
  pack_all, unpacked, finish_packing, merge_with_overlap, chunk_text_recursive,
}
use bot_flow.Chunk.Blank.{length-trim}

-- At most `size` characters each.
abbrev pub Fit : ℕ → List Text → Type 0
Fit size = All (λ p. length p ≤ size)

hard_cut-Fit : (fuel : ℕ) (text : Text) (size : ℕ) → Fit size (hard_cut fuel text size)
unfolding hard_cut
hard_cut-Fit zero text size = tt
hard_cut-Fit (suc fuel) [] size = tt
hard_cut-Fit (suc fuel) (c ∷ s) size =
    (omega (arith, length-take size (c ∷ s)), hard_cut-Fit fuel (drop size (c ∷ s)) size)

fit_parts-Fit :
    (deeper : Text → List Text) (size : ℕ) (parts : List Text)
    → ((p : Text) → Fit size (deeper p))
    → Fit size (fit_parts deeper size parts)
unfolding fit_parts
fit_parts-Fit deeper size [] h = tt
fit_parts-Fit deeper size (p ∷ ps) h =
    let rest = fit_parts-Fit deeper size ps h in
    elim (Bool-cases (is_blank p)) [
      | inl e ↦ rw e rest
      | inr e ↦ elim (Bool-cases (ltb size (length p))) [
        | inl l ↦ rw (e, l) (All-append _ _ _ (h p) rest)
        | inr l ↦ rw (e, l) (ground arith, rest)
      ]
    ]

-- Whatever the text and the separators, no piece of it is longer than the budget.
pub split_to_size-Fit :
    (text : Text) (size : ℕ) (seps : List Text) → Fit size (split_to_size text size seps)
unfolding split_to_size
split_to_size-Fit text size [] = elim (Bool-cases (leb (length text) size)) [
  | inl e ↦ rw e (ground arith, tt)
  | inr e ↦ rw e (hard_cut-Fit (length text) text size)
]
split_to_size-Fit text size (sep ∷ seps) = elim (Bool-cases (leb (length text) size)) [
  | inl e ↦ rw e (ground arith, tt)
  | inr e ↦ elim (Bool-cases (contains text sep)) [
    | inl c ↦ rw (e, c) (fit_parts-Fit _ size _ (λ p. split_to_size-Fit p size seps))
    | inr c ↦ rw (e, c) (split_to_size-Fit text size seps)
  ]
]

-- The characters of a list of pieces.
abbrev pub total : List Text → ℕ
total [] = 0
total (p ∷ ps) = length p + total ps

length-concat : (ps : List Text) → length (concat ps) ≡ total ps
unfolding concat
length-concat [] = refl
length-concat (p ∷ ps) = omega (arith, length-append p (concat ps), length-concat ps)

total-append : (ps qs : List Text) → total (ps ++ qs) ≡ total ps + total qs
total-append [] qs = omega arith
total-append (p ∷ ps) qs = omega (arith, total-append ps qs)

-- What is carried over has the length that is counted, and stays within the overlap.
carry_bounds :
    (overlap : ℕ) (back carried : List Text) (n : ℕ)
    → total carried ≡ n
    → n ≤ overlap
    → (total (carry overlap back carried n).0 ≡ (carry overlap back carried n).1)
      × ((carry overlap back carried n).1 ≤ overlap)
unfolding carry
carry_bounds overlap [] carried n e h = (e, h)
carry_bounds overlap (p ∷ back) carried n e h =
    ground (arith, carry_bounds overlap back (p ∷ carried) (n + length p))

-- The loop counts `current` right, and no chunk passes the budget by more than the overlap.
record IsPacked (size overlap : ℕ) (s : Packing) : Type 0 where
  counted : total s.current ≡ s.current_len
  room : s.current_len ≤ size + overlap
  closed : Fit (size + overlap) s.chunks

-- After `make_room` there is room for the piece.
record HasRoom (size overlap : ℕ) (piece : Text) (s : Packing) : Type 0 where
  counted : total s.current ≡ s.current_len
  room : s.current_len + length piece ≤ size + overlap
  closed : Fit (size + overlap) s.chunks

-- The test for closing the current chunk.
abbrev is_full : ℕ → Packing → Text → Bool
is_full size s piece = ltb size (s.current_len + length piece) && not (is_empty s.current)

not_full_room :
    (size n m : ℕ) (current : List Text)
    → total current ≡ n
    → m ≤ size
    → (ltb size (n + m) && not (is_empty current)) ≡ false
    → n + m ≤ size
not_full_room size n m [] e h q = omega arith
not_full_room size n m (p ∷ ps) e h q = ground arith

make_room-HasRoom :
    (size overlap : ℕ) (s : Packing) (piece : Text)
    → IsPacked size overlap s
    → length piece ≤ size
    → HasRoom size overlap piece (make_room size overlap s piece)
unfolding make_room
make_room-HasRoom size overlap s piece h fits = elim (Bool-cases (is_full size s piece)) [
  | inl full ↦
      let (counted, small) = carry_bounds overlap (reverse s.current) [] 0 refl (omega arith) in
      rw full (record {
        counted = counted;
        room = omega arith;
        closed = All-append _ s.chunks (trim (concat s.current) ∷ []) h.closed (
          omega (arith, length-trim (concat s.current), length-concat s.current, h.counted, h.room),
          tt,
        );
      })
  | inr roomy ↦ rw roomy (record {
    counted = h.counted;
    room =
        omega
          (arith, not_full_room size s.current_len (length piece) s.current h.counted fits roomy);
    closed = h.closed;
  })
]

pack-IsPacked :
    (size overlap : ℕ) (s : Packing) (piece : Text)
    → IsPacked size overlap s
    → length piece ≤ size
    → IsPacked size overlap (pack size overlap s piece)
unfolding pack
pack-IsPacked size overlap s piece h fits =
    let t = make_room size overlap s piece in
    let roomy = make_room-HasRoom size overlap s piece h fits in
    record {
      counted = omega (arith, total-append t.current (piece ∷ []), roomy.counted);
      room = roomy.room;
      closed = roomy.closed;
    }

pack_all-IsPacked :
    (size overlap : ℕ) (s : Packing) (ps : List Text)
    → IsPacked size overlap s
    → Fit size ps
    → IsPacked size overlap (pack_all size overlap s ps)
unfolding pack_all
pack_all-IsPacked size overlap s [] h fits = h
pack_all-IsPacked size overlap s (p ∷ ps) h (fit, fits) =
    pack_all-IsPacked size overlap (pack size overlap s p) ps (pack-IsPacked size overlap s p h fit)
      fits

Fit-filter : (n : ℕ) (p : Text → Bool) (cs : List Text) → Fit n cs → Fit n (filter p cs)
Fit-filter n p [] h = tt
Fit-filter n p (c ∷ cs) (hc, h) = ground (arith, Fit-filter n p cs h)

finish_packing-Fit :
    (size overlap : ℕ) (s : Packing)
    → IsPacked size overlap s
    → Fit (size + overlap) (finish_packing s)
unfolding finish_packing
finish_packing-Fit size overlap s h =
    Fit-filter _ _ _ (both (is_empty s.current || is_empty (trim (concat s.current))))
  where
    last : length (trim (concat s.current)) ≤ size + overlap
    last = omega (arith, length-trim (concat s.current), length-concat s.current, h.counted, h.room)

    both :
        (b : Bool)
        → Fit (size + overlap) (if b then s.chunks else s.chunks ++ trim (concat s.current) ∷ [])
    both true = h.closed
    both false = All-append _ s.chunks _ h.closed (last, tt)

-- No chunk is longer than the budget and the overlap together.
pub merge_with_overlap-Fit :
    (pieces : List Text) (size overlap : ℕ)
    → Fit size pieces
    → Fit (size + overlap) (merge_with_overlap pieces size overlap)
unfolding merge_with_overlap
merge_with_overlap-Fit pieces size overlap fits = finish_packing-Fit size overlap _ (
    pack_all-IsPacked size overlap unpacked pieces
      (record { counted = refl; room = omega arith; closed = tt }) fits)

-- Whatever the text, no chunk of it is longer than the budget and the overlap together.
pub chunk_text_recursive-Fit :
    (text : Text) (size overlap : ℕ) → Fit (size + overlap) (chunk_text_recursive text size overlap)
unfolding chunk_text_recursive
chunk_text_recursive-Fit text size overlap = elim (Bool-cases (is_blank text || size == 0)) [
  | inl e ↦ rw e tt
  | inr e ↦ rw e (merge_with_overlap-Fit _ size overlap (split_to_size-Fit text size separators))
]
