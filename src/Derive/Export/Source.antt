-- ===== src/Derive/Export/Source.antt =====
-- The search for the interface in a file of crates/l4_derive/export.rs. Text is code points, and a
-- position counts the bytes of UTF-8.
use l4rerust.Base.{
  ℕ, zero, suc, ◌+◌, ◌-◌, Bool, true, false, ◌&&◌, ◌==◌, Option, none, some, List, [], ◌∷◌,
  if◌then◌else◌, ltb, leb,
}
use l4rerust.Base.Text.{codes}
use l4rerust.Derive.{Result, ok, err, panicked, ◌>>=◌}

-- The bytes of a character in UTF-8, and of a text.
abbrev pub len_utf8 : ℕ → ℕ
len_utf8 c = if ltb c 128 then 1 else if ltb c 2048 then 2 else if ltb c 65536 then 3 else 4

abbrev pub bytes : List ℕ → ℕ
bytes [] = 0
bytes (c ∷ cs) = len_utf8 c + bytes cs

-- The text from a position on and the text before it; a position inside a character, or behind the
-- text, is a panic.
unfoldable pub suffix : ℕ → List ℕ → Result (List ℕ)
suffix zero s = ok s
suffix (suc n) [] = panicked
suffix (suc n) (c ∷ cs) =
    let rest = suffix (suc n - len_utf8 c) cs in if leb (len_utf8 c) (suc n) then rest else panicked

unfoldable pub prefix : ℕ → List ℕ → Result (List ℕ)
prefix zero s = ok []
prefix (suc n) [] = panicked
prefix (suc n) (c ∷ cs) =
    let rest = prefix (suc n - len_utf8 c) cs in
    if leb (len_utf8 c) (suc n) then (rest >>= λ t. ok (c ∷ t)) else panicked

abbrev pub begins : List ℕ → List ℕ → Bool
begins [] s = true
begins (p ∷ ps) [] = false
begins (p ∷ ps) (c ∷ cs) = p == c && begins ps cs

-- `str::find`
abbrev pub after : ℕ → Option ℕ → Option ℕ
after n none = none
after n (some i) = some (n + i)

unfoldable pub find : List ℕ → List ℕ → Option ℕ
find pattern [] = if begins pattern [] then some 0 else none
find pattern (c ∷ cs) =
    if begins pattern (c ∷ cs) then some 0 else after (len_utf8 c) (find pattern cs)

-- A part of a text from one position to another
abbrev pub slice : ℕ → ℕ → List ℕ → Result (List ℕ)
slice first last s =
    let rest = suffix first s >>= λ t. prefix (last - first) t in
    if leb first last then rest else panicked

-- `map_err!` of an option
abbrev pub required : Option ℕ → List ℕ → Result ℕ
required (some n) message = ok n
required none message = err message

-- The position behind the brace that follows `iface!`
unfoldable pub opening : List ℕ → Result ℕ
opening contents =
    required (find (codes "iface!") contents) (codes "No iface! macro invocation found")
    >>= λ start. slice start (bytes contents) contents >>= λ tail.
        required (find (codes "{") tail) (codes "Interface definition without opening brace '{'")
        >>= λ at_brace. ok (start + at_brace + 1)

-- The open braces after a character
abbrev pub braces_after : ℕ → ℕ → ℕ
braces_after ch braces = if ch == 123 then suc braces else if ch == 125 then braces - 1 else braces

-- The loop over the characters, with their index
unfoldable pub closing : ℕ → ℕ → List ℕ → Option ℕ
closing braces index [] = none
closing braces index (ch ∷ chs) =
    let more = braces_after ch braces in
    let rest = closing more (suc index) chs in if more == 0 then some index else rest

abbrev pub unterminated : List ℕ
unterminated = codes "Unterminated IPC interface definition"

-- The text that is parsed as an interface, from the position behind the opening brace on
unfoldable pub definition_from : List ℕ → ℕ → Result (List ℕ)
definition_from contents start = slice (start + 1) (bytes contents - 1) contents >>= λ chars.
    required (closing 1 0 chars) unterminated >>= λ index. slice start (start + index) contents

-- The text of the file that is read gives the text that is parsed.
unfoldable pub parse_external_iface : List ℕ → Result (List ℕ)
parse_external_iface contents = opening contents >>= λ start. definition_from contents start
