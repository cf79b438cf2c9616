-- ===== src/Server/Lines/Chunks.antt =====
-- About the chunks in which a line arrives.
use mathlib.Core.List.{append-nil, append_assoc}
use mathlib.Core.Option.{none-ne-some, some-injective}
use trx_rs.Common.{
  ℕ, ◌+◌, ◌≤◌, ◌<◌, true, false, Option, none, some, List, [], ◌∷◌, ◌++◌, ltb, ◌==◌, length,
  length-append, if◌then◌else◌, ◌≡◌, ◌≢◌, refl, sym, ap, ◌∙◌, arith, inl, inr, Bool-cases,
  Option-cases,
}
use trx_rs.Server.Lines.{
  Line, eof, too_long, line, after_byte, split_newline, unread, at_end, read_from,
  read_limited_line,
}

-- the stream that the chunks are cut from
unfoldable pub concat : List (List ℕ) → List ℕ
concat [] = []
concat (c ∷ cs) = c ++ concat cs

-- no chunk ends the stream before its end
abbrev pub AreChunks : List (List ℕ) → Type 0
AreChunks [] = Unit
AreChunks (c ∷ cs) = (c ≢ []) × AreChunks cs

unfoldable pub flat : Line (List (List ℕ)) → Line (List ℕ)
flat eof = eof
flat too_long = too_long
flat (line text chunks) = line text (concat chunks)

end_of : List ℕ → Line (List ℕ)
end_of [] = eof
end_of (b ∷ bs) = line (b ∷ bs) []

-- the first line of a stream, read at once
cut : ℕ → List ℕ → Option (List ℕ × List ℕ) → Line (List ℕ)
unfolding end_of
cut max_bytes stream (some (pre, post)) =
    if ltb max_bytes (length pre) then too_long else line pre post
cut max_bytes stream none = if ltb max_bytes (length stream) then too_long else end_of stream

unfoldable pub first_line : ℕ → List ℕ → Line (List ℕ)
unfolding cut
first_line max_bytes stream = cut max_bytes stream (split_newline stream)

-- a byte of a text without a newline
no_newline :
    (b : ℕ) (s : List ℕ)
    → split_newline (b ∷ s) ≡ none
    → ((b == b'\n') ≡ false) × (split_newline s ≡ none)
unfolding split_newline after_byte
no_newline b s h = elim (Bool-cases (b == b'\n')) [
  | inl y ↦ absurd (none-ne-some _ (sym (rw y at h)))
  | inr f ↦ (
    f,
    elim (Option-cases (split_newline s)) [
      | inl e ↦ e
      | inr (r, e) ↦ absurd (none-ne-some _ (sym (rw (f, e, after_byte) at h)))
    ],
  )
]

-- a newline that is found behind a text without one
split_newline-append :
    (s t : List ℕ) (o : Option (List ℕ × List ℕ))
    → split_newline s ≡ none
    → split_newline t ≡ o
    → split_newline (s ++ t) ≡ (elim o [ none ↦ none | some r ↦ some (s ++ r.0, r.1) ])
unfolding split_newline after_byte
split_newline-append [] t none h e = e
split_newline-append [] t (some r) h e = e
split_newline-append (b ∷ s) t none h e =
    let n = no_newline b s h in rw (n.0, split_newline-append s t none n.1 e) refl
split_newline-append (b ∷ s) t (some r) h e =
    let n = no_newline b s h in rw (n.0, split_newline-append s t (some r) n.1 e) refl

-- a newline that is found before more follows
split_newline-before :
    (s t pre post : List ℕ)
    → split_newline s ≡ some (pre, post)
    → split_newline (s ++ t) ≡ some (pre, post ++ t)
unfolding split_newline after_byte
split_newline-before [] t pre post e = absurd (none-ne-some _ e)
split_newline-before (b ∷ s) t pre post e =
    let more : List ℕ × List ℕ → Option (List ℕ × List ℕ) = λ r. some (r.0, r.1 ++ t) in
    elim (Bool-cases (b == b'\n')) [
      | inl y ↦ rw y (ap more (some-injective _ _ (rw y at e)))
      | inr f ↦ elim (Option-cases (split_newline s)) [
        | inl n ↦ absurd (none-ne-some _ (rw (f, n, after_byte) at e))
        | inr (r, x) ↦
            rw (f, split_newline-before s t r.0 r.1 x)
              (ap more (some-injective _ _ (rw (f, x, after_byte) at e)))
      ]
    ]

concat-unread :
    (post : List ℕ) (chunks : List (List ℕ)) → concat (unread post chunks) ≡ post ++ concat chunks
unfolding concat unread
concat-unread [] chunks = refl
concat-unread (b ∷ bs) chunks = refl

-- a text without a newline that is too long starts no line
first_line-too_long :
    (max_bytes : ℕ) (s t : List ℕ)
    → split_newline s ≡ none
    → max_bytes < length s
    → first_line max_bytes (s ++ t) ≡ too_long
unfolding first_line
first_line-too_long max_bytes s t h l = elim (Option-cases (split_newline t)) [
  | inl e ↦
      let over : ltb max_bytes (length (s ++ t)) ≡ true = ground (arith, length-append s t) in
      rw (split_newline-append s t none h e, over) refl
  | inr (r, e) ↦
      let over : ltb max_bytes (length (s ++ r.0)) ≡ true = ground (arith, length-append s r.0) in
      rw (split_newline-append s t (some r) h e, over) refl
]

flat-at_end : (text : List ℕ) → flat (at_end text) ≡ end_of text
unfolding flat at_end end_of concat
flat-at_end [] = refl
flat-at_end (b ∷ bs) = refl

first_line-end :
    (max_bytes : ℕ) (text : List ℕ)
    → split_newline text ≡ none
    → length text ≤ max_bytes
    → flat (at_end text) ≡ first_line max_bytes (text ++ [])
unfolding first_line
first_line-end max_bytes text h l =
    let fits : ltb max_bytes (length text) ≡ false = ground arith in
    rw (append-nil text, h, fits) (flat-at_end text)

first_line-behind :
    (max_bytes : ℕ) (text chunk pre post rest : List ℕ)
    → split_newline text ≡ none
    → split_newline chunk ≡ some (pre, post)
    → first_line max_bytes (text ++ (chunk ++ rest)) ≡ (
        if ltb max_bytes (length text + length pre)
        then too_long
        else line (text ++ pre) (post ++ rest))
unfolding first_line
first_line-behind max_bytes text chunk pre post rest h e =
    rw
      (
        split_newline-append text (chunk ++ rest) (some (pre, post ++ rest)) h
            (split_newline-before chunk rest pre post e),
        length-append text pre,
      )
      refl

-- From any text without a newline that fits, the loop reads the line that the stream has there.
read_from-first_line :
    (max_bytes : ℕ) (text : List ℕ) (chunks : List (List ℕ))
    → AreChunks chunks
    → split_newline text ≡ none
    → length text ≤ max_bytes
    → flat (read_from max_bytes text chunks) ≡ first_line max_bytes (text ++ concat chunks)
unfolding read_from concat flat
read_from-first_line max_bytes text [] v h l = first_line-end max_bytes text h l
read_from-first_line max_bytes text ([] ∷ chunks) v h l = absurd (v.0 refl)
read_from-first_line max_bytes text ((b ∷ bs) ∷ chunks) v h l =
    let chunk = b ∷ bs in
    let behind = λ (r : List ℕ × List ℕ) (e : split_newline chunk ≡ some r).
      first_line-behind max_bytes text chunk r.0 r.1 (concat chunks) h e in
    elim (Option-cases (split_newline chunk)) [
      | inr (r, e) ↦ elim (Bool-cases (ltb max_bytes (length text + length r.0))) [
        | inl over ↦
            rw (e, over)
              (sym (
                behind r e
                ∙ ap (λ c. if c then too_long else line (text ++ r.0) (r.1 ++ concat chunks)) over))
        | inr fits ↦
            rw (e, fits)
              (ap (line (text ++ r.0)) (concat-unread r.1 chunks)
                ∙ sym (
                    behind r e
                    ∙ ap (λ c. if c then too_long else line (text ++ r.0) (r.1 ++ concat chunks))
                        fits))
      ]
      | inl e ↦
          let none_yet = split_newline-append text chunk none h e in
          let longer = length-append text chunk in
          elim (Bool-cases (ltb max_bytes (length text + length chunk))) [
            | inl over ↦
                rw (e, over)
                  (sym (
                    ap (first_line max_bytes) (sym (append_assoc text chunk (concat chunks)))
                    ∙ first_line-too_long max_bytes (text ++ chunk) (concat chunks) none_yet
                        (ground (arith, longer))))
            | inr fits ↦
                rw (e, fits)
                  (read_from-first_line max_bytes (text ++ chunk) chunks v.1 none_yet
                      (ground (arith, longer))
                    ∙ ap (first_line max_bytes) (append_assoc text chunk (concat chunks)))
          ]
    ]

-- However a stream is cut into chunks that are not empty, `read_limited_line` returns the line,
-- the end or the error that reading the stream at once gives, and leaves the same bytes unread.
pub read_limited_line-concat :
    (max_bytes : ℕ) (chunks : List (List ℕ))
    → AreChunks chunks
    → flat (read_limited_line max_bytes chunks) ≡ first_line max_bytes (concat chunks)
unfolding read_limited_line split_newline
read_limited_line-concat max_bytes chunks v =
    read_from-first_line max_bytes [] chunks v refl (omega arith)
