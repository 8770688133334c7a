-- ===== src/Text/Sanitize.antt =====
-- `sanitize_and_clip` of services/ekinox/src/ekinox_service.cpp, on the bytes of a text.
use ironsoft.Prelude.{
  ℕ, ◌+◌, ◌≤◌, ◌<◌, ◌≡◌, ◌≢◌, subst, refl, ap, ◌∙◌, sym, ◌⊎◌, inl, inr, Bool, true, ◌&&◌, ◌||◌, not,
  List, [], ◌∷◌, ◌++◌, append-nil, append_assoc, arith, ltb, leb, ◌==◌, if◌then◌else◌, length,
  length-append, All, All-append, Bool-cases,
}

-- What one round of the loop writes for a byte: a quote or a backslash is escaped.
unfoldable pub encode : ℕ → List ℕ
encode byte =
    if byte == b'\\' || byte == b'"'
    then b'\\' ∷ byte ∷ []
    else if ltb byte 0x20 && not (byte == 10) && not (byte == 13) && not (byte == 9)
    then b' ' ∷ []
    else if leb 0x80 byte
    then b'?' ∷ []
    else byte ∷ []

-- The loop, with the output so far; it stops at the first byte whose encoding does not fit.
clip_onto : ℕ → List ℕ → List ℕ → List ℕ
clip_onto max_len out [] = out
clip_onto max_len out (byte ∷ rest) =
    let more = clip_onto max_len (out ++ encode byte) rest in
    if ltb max_len (length out + length (encode byte)) then out else more

unfoldable pub sanitize_and_clip : List ℕ → ℕ → List ℕ
unfolding clip_onto
sanitize_and_clip text max_len = clip_onto max_len [] text

-- The reference: every byte is encoded, and nothing is cut.
unfoldable pub encode_all : List ℕ → List ℕ
encode_all [] = []
encode_all (byte ∷ rest) = encode byte ++ encode_all rest

-- The output may end before `rest`: there is none, or its first encoding does not fit.
abbrev pub Ends : ℕ → List ℕ → List ℕ → Type 0
Ends max_len out [] = Unit
Ends max_len out (byte ∷ rest) = max_len < length out + length (encode byte)

abbrev pub Clipped : ℕ → List ℕ → List ℕ → List ℕ → Type 0
Clipped max_len done text out =
    (front : List ℕ) × (rest : List ℕ) × (text ≡ front ++ rest)
    × (out ≡ done ++ encode_all front)
    × Ends max_len out rest

clip_onto-Clipped :
    (max_len : ℕ) (out text : List ℕ) → Clipped max_len out text (clip_onto max_len out text)
unfolding clip_onto encode_all
clip_onto-Clipped max_len out [] = ([], [], refl, sym (append-nil out), tt)
clip_onto-Clipped max_len out (byte ∷ rest) =
    elim (Bool-cases (ltb max_len (length out + length (encode byte)))) [
      | inl full ↦ rw full ([], byte ∷ rest, refl, sym (append-nil out), ground arith)
      | inr fits ↦
          let (front, left, split, written, ends) =
            clip_onto-Clipped max_len (out ++ encode byte) rest in
          rw fits (
            byte ∷ front,
            left,
            ap (◌∷◌ byte) split,
            written ∙ append_assoc out (encode byte) (encode_all front),
            ends,
          )
    ]

-- For every text and limit the output is the encoding of a front part of the text, and that part is
-- the whole text or ends at a byte whose encoding would pass the limit: no escape is cut in two.
pub sanitize_and_clip-Clipped :
    (text : List ℕ) (max_len : ℕ) → Clipped max_len [] text (sanitize_and_clip text max_len)
unfolding sanitize_and_clip
sanitize_and_clip-Clipped text max_len = clip_onto-Clipped max_len [] text

clip_onto_fits :
    (max_len : ℕ) (out text : List ℕ)
    → length out ≤ max_len
    → length (clip_onto max_len out text) ≤ max_len
unfolding clip_onto
clip_onto_fits max_len out [] h = h
clip_onto_fits max_len out (byte ∷ rest) h =
    ground
      (arith, length-append out (encode byte), clip_onto_fits max_len (out ++ encode byte) rest)

length-sanitize_and_clip-le :
    (text : List ℕ) (max_len : ℕ) → length (sanitize_and_clip text max_len) ≤ max_len
unfolding sanitize_and_clip
length-sanitize_and_clip-le text max_len = clip_onto_fits max_len [] text (omega arith)

-- An ASCII byte from 0x20 on, DEL (0x7F) included, or one of tab, line feed and carriage return.
abbrev pub IsClean : ℕ → Type 0
IsClean b = (b < 0x80) × ((0x20 ≤ b) ⊎ (b ≡ 9) ⊎ (b ≡ 10) ⊎ (b ≡ 13))

encode-IsClean : (byte : ℕ) → All IsClean (encode byte)
unfolding encode
encode-IsClean byte = ground arith

encode_all-IsClean : (text : List ℕ) → All IsClean (encode_all text)
unfolding encode_all
encode_all-IsClean [] = tt
encode_all-IsClean (byte ∷ rest) =
    All-append IsClean (encode byte) (encode_all rest) (encode-IsClean byte)
      (encode_all-IsClean rest)

-- Every byte of the output is an ASCII byte from 0x20 to 0x7F (so DEL is let through), a tab, a line
-- feed or a carriage return, and the output is never longer than the limit.
pub sanitize_and_clip-IsClean :
    (text : List ℕ) (max_len : ℕ)
    → All IsClean (sanitize_and_clip text max_len)
      × (length (sanitize_and_clip text max_len) ≤ max_len)
sanitize_and_clip-IsClean text max_len =
    let (front, _, _, written, _) = sanitize_and_clip-Clipped text max_len in
    (rw written (encode_all-IsClean front), length-sanitize_and_clip-le text max_len)

-- A clean byte that needs no escape.
abbrev pub is_plain : ℕ → Bool
is_plain b = ltb b 0x80 && leb 0x20 b && not (b == b'\\') && not (b == b'"')

encode_plain : (b : ℕ) → is_plain b ≡ true → encode b ≡ b ∷ []
unfolding encode
encode_plain b h = ground arith

clip_onto_plain :
    (max_len : ℕ) (out text : List ℕ)
    → All (λ b. is_plain b ≡ true) text
    → length out + length text ≤ max_len
    → clip_onto max_len out text ≡ out ++ text
unfolding clip_onto
clip_onto_plain max_len out [] plain fits = sym (append-nil out)
clip_onto_plain max_len out (b ∷ rest) plain fits = rw (encode_plain b plain.0) (
    ground (
      arith,
      length-append out (b ∷ []),
      append_assoc out (b ∷ []) rest,
      clip_onto_plain max_len (out ++ b ∷ []) rest plain.1,
    ))

-- A text of plain bytes that fits the limit is left as it is.
pub sanitize_and_clip_plain :
    (text : List ℕ) (max_len : ℕ)
    → All (λ b. is_plain b ≡ true) text
    → length text ≤ max_len
    → sanitize_and_clip text max_len ≡ text
unfolding sanitize_and_clip
sanitize_and_clip_plain text max_len plain fits =
    clip_onto_plain max_len [] text plain (omega arith)

encode_nonempty : (byte : ℕ) (rest : List ℕ) → encode byte ++ rest ≢ []
unfolding encode
encode_nonempty byte rest e =
    let written : 1 ≤ length (encode byte) = ground arith in
    omega (arith, length-append (encode byte) rest, written, ap length e)

encode-le : (byte : ℕ) → length (encode byte) ≤ 2
unfolding encode
encode-le byte = ground arith

front_nonempty :
    (front rest : List ℕ)
    → front ++ rest ≢ []
    → Ends 300 (encode_all front) rest
    → encode_all front ≢ []
unfolding encode_all
front_nonempty [] [] ne ends = absurd (ne refl)
front_nonempty [] (byte ∷ rest) ne ends = absurd (omega (arith, encode-le byte, ends))
front_nonempty (byte ∷ front) rest ne ends = encode_nonempty byte (encode_all front)

-- Some of a text that is not empty is kept.
pub sanitize_and_clip_nonempty : (text : List ℕ) → text ≢ [] → sanitize_and_clip text 300 ≢ []
sanitize_and_clip_nonempty text ne =
    let (front, rest, split, written, ends) = sanitize_and_clip-Clipped text 300 in
    let kept : Ends 300 (encode_all front) rest = subst (λ t. Ends 300 t rest) written ends in
    subst (λ t. t ≢ []) (sym written)
      (front_nonempty front rest (subst (λ t. t ≢ []) split ne) kept)
