-- ===== src/Derive/Export/Slice.antt =====
-- What crates/l4_derive/export.rs takes of a file as the interface.
use l4rerust.Base.{
  ℕ, zero, suc, ◌+◌, ◌-◌, ◌≤◌, ◌≡◌, refl, ap, sym, ◌∙◌, Bool, true, ◌&&◌, ◌==◌, Bool-cases, inl,
  inr, Option, none, some, List, [], ◌∷◌, ◌++◌, length, length-append, take, drop, take-append,
  drop-append, leb, ltb, if◌then◌else◌, if_true, if_false, append_assoc, arith,
}
use l4rerust.Derive.{ok, ◌>>=◌}
use l4rerust.Derive.Export.Source.{
  len_utf8, bytes, suffix, prefix, slice, required, opening, braces_after, closing, unterminated,
  definition_from, parse_external_iface,
}

-- Every character is below 128.
abbrev pub is_ascii : List ℕ → Bool
is_ascii [] = true
is_ascii (c ∷ cs) = ltb c 128 && is_ascii cs

len_ascii : (c : ℕ) → ltb c 128 ≡ true → len_utf8 c ≡ 1
len_ascii c h = if_true (ltb c 128) _ _ h

bytes_ascii : (s : List ℕ) → is_ascii s ≡ true → bytes s ≡ length s
bytes_ascii [] h = refl
bytes_ascii (c ∷ cs) h =
    let one = len_ascii c (ground (arith, h)) in
    let others = bytes_ascii cs (ground (arith, h)) in omega (arith, one, others)

-- In such a text a position is an index.
suffix_ascii : (n : ℕ) (s : List ℕ) → is_ascii s ≡ true → n ≤ length s → suffix n s ≡ ok (drop n s)
unfolding suffix
suffix_ascii zero s h l = refl
suffix_ascii (suc n) [] h l = absurd (omega (arith, l))
suffix_ascii (suc n) (c ∷ cs) h l =
    let one : len_utf8 c ≡ 1 = len_ascii c (ground (arith, h)) in
    let before : suc n - len_utf8 c ≡ n = omega (arith, one) in
    if_true (leb (len_utf8 c) (suc n)) _ _ (ground (arith, one))
    ∙ ap (λ k. suffix k cs) before
    ∙ suffix_ascii n cs (ground (arith, h)) (omega (arith, l))

prefix_ascii : (n : ℕ) (s : List ℕ) → is_ascii s ≡ true → n ≤ length s → prefix n s ≡ ok (take n s)
unfolding prefix
prefix_ascii zero s h l = refl
prefix_ascii (suc n) [] h l = absurd (omega (arith, l))
prefix_ascii (suc n) (c ∷ cs) h l =
    let one : len_utf8 c ≡ 1 = len_ascii c (ground (arith, h)) in
    let before : suc n - len_utf8 c ≡ n = omega (arith, one) in
    if_true (leb (len_utf8 c) (suc n)) _ _ (ground (arith, one))
    ∙ ap (λ k. prefix k cs >>= λ t. ok (c ∷ t)) before
    ∙ ap (λ r. r >>= λ t. ok (c ∷ t)) (prefix_ascii n cs (ground (arith, h)) (omega (arith, l)))

is_ascii-append : (s t : List ℕ) → is_ascii (s ++ t) ≡ (is_ascii s && is_ascii t)
is_ascii-append [] t = refl
is_ascii-append (c ∷ cs) t = let r = is_ascii-append cs t in ground (arith, r)

-- The slice between two parts of a text
slice_ascii :
    (a b c : List ℕ) (first last : ℕ)
    → is_ascii (a ++ (b ++ c)) ≡ true
    → first ≡ length a
    → last ≡ length a + length b
    → slice first last (a ++ (b ++ c)) ≡ ok b
slice_ascii a b c first last h f l =
    let size = length-append a (b ++ c) in
    let size_tail = length-append b c in
    let split = is_ascii-append a (b ++ c) in
    let tail : is_ascii (b ++ c) ≡ true = ground (arith, h, split) in
    if_true (leb first last) _ _ (ground (arith, f, l))
    ∙ ap (λ r. r >>= λ t. prefix (last - first) t)
        (suffix_ascii first (a ++ (b ++ c)) h (omega (arith, f, size))
          ∙ ap ok (drop-append a (b ++ c) first f))
    ∙ prefix_ascii (last - first) (b ++ c) tail (omega (arith, f, l, size_tail))
    ∙ ap ok (take-append b c (last - first) (omega (arith, f, l)))

-- The open braces after a text; `none` when they come to none.
abbrev pub level : ℕ → List ℕ → Option ℕ
level braces [] = some braces
level braces (ch ∷ chs) =
    let rest = level (braces_after ch braces) chs in
    if braces_after ch braces == 0 then none else rest

closing_lem :
    (braces index : ℕ) (s rest : List ℕ)
    → level braces s ≡ some 1
    → closing braces index (s ++ 125 ∷ rest) ≡ some (index + length s)
unfolding closing
closing_lem braces index [] rest h = let one : braces ≡ 1 = cc in ground (arith, one)
closing_lem braces index (ch ∷ chs) rest h = elim (Bool-cases (braces_after ch braces == 0)) [
  | inl e ↦ absurd (
      let n = if_true (braces_after ch braces == 0) none (level (braces_after ch braces) chs) e in
      cc)
  | inr e ↦
      let n = if_false (braces_after ch braces == 0) none (level (braces_after ch braces) chs) e in
      let h2 : level (braces_after ch braces) chs ≡ some 1 = cc in
      if_false (braces_after ch braces == 0) _ _ e
      ∙ closing_lem (braces_after ch braces) (suc index) chs rest h2
      ∙ ap some (omega arith)
]

regroup :
    (head body after : List ℕ) (first last final : ℕ)
    → head ++ ((first ∷ body) ++ (last ∷ 125 ∷ (after ++ (final ∷ []))))
      ≡ (head ++ (first ∷ [])) ++ (((body ++ (last ∷ [])) ++ (125 ∷ after)) ++ (final ∷ []))
regroup head body after first last final = rw (
  append_assoc head (first ∷ []) (((body ++ (last ∷ [])) ++ (125 ∷ after)) ++ (final ∷ [])),
  append_assoc (body ++ (last ∷ [])) (125 ∷ after) (final ∷ []),
  append_assoc body (last ∷ []) (125 ∷ (after ++ (final ∷ []))),
)

-- For a file of characters below 128 in which the brace that opens the interface ends `head`, and whose
-- braces from the second character of the definition on are balanced up to a closing brace that is not
-- the last character of the file: what is parsed is the definition without its last character.
pub parse_external_iface_lem :
    (head body after : List ℕ) (first last final : ℕ)
    → is_ascii (head ++ ((first ∷ body) ++ (last ∷ 125 ∷ (after ++ (final ∷ []))))) ≡ true
    → opening (head ++ ((first ∷ body) ++ (last ∷ 125 ∷ (after ++ (final ∷ [])))))
      ≡ ok (length head)
    → level 1 (body ++ (last ∷ [])) ≡ some 1
    → parse_external_iface (head ++ ((first ∷ body) ++ (last ∷ 125 ∷ (after ++ (final ∷ [])))))
      ≡ ok (first ∷ body)
unfolding parse_external_iface definition_from
parse_external_iface_lem head body after first last final h o l =
    let contents = head ++ ((first ∷ body) ++ (last ∷ 125 ∷ (after ++ (final ∷ [])))) in
    let chars = (body ++ (last ∷ [])) ++ (125 ∷ after) in
    let again = regroup head body after first last final in
    let h2 : is_ascii ((head ++ (first ∷ [])) ++ (chars ++ (final ∷ []))) ≡ true =
      ap is_ascii (sym again) ∙ h in
    let size = ap length again ∙ length-append (head ++ (first ∷ [])) (chars ++ (final ∷ [])) in
    let size_head = length-append head (first ∷ []) in
    let size_chars = length-append chars (final ∷ []) in
    let size_body = length-append body (last ∷ []) in
    let all = bytes_ascii contents h in
    let read : slice (length head + 1) (bytes contents - 1) contents ≡ ok chars =
      ap (slice (length head + 1) (bytes contents - 1)) again
      ∙ slice_ascii (head ++ (first ∷ [])) chars (final ∷ []) (length head + 1) (bytes contents - 1)
          h2 (omega (arith, size_head)) (omega (arith, all, size, size_head, size_chars)) in
    let found = closing_lem 1 0 (body ++ (last ∷ [])) after l in
    ap (λ r. r >>= λ start. definition_from contents start) o
    ∙ ap
        (λ r. r >>= λ t. required (closing 1 0 t) unterminated >>= λ index.
          slice (length head) (length head + index) contents)
        read
    ∙ ap
        (λ r.
          required r unterminated >>= λ index. slice (length head) (length head + index) contents)
        found
    ∙ slice_ascii head (first ∷ body) (last ∷ 125 ∷ (after ++ (final ∷ []))) (length head)
        (length head + (0 + length (body ++ (last ∷ [])))) h (omega arith)
        (omega (arith, size_body))
