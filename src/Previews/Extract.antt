-- ===== src/Previews/Extract.antt =====
-- internal/url_previews/extract.go. The pattern is `https?://` and then as many characters as
-- possible, one at least, that are no space and none of <>"{}|\^[]`. A match is the leftmost one,
-- and the next is looked for behind it.
use Prim.Native.Char.{code}
use Prim.Native.String.{[] as empty, ◌∷◌ as ◌∷s◌}
use arko.Base.{
  ℕ, zero, suc, ◌-◌, String, ◌+s◌, Bool, ◌||◌, Option, none, some, List, [], ◌∷◌, eqb, ltb, length,
  if◌then◌else◌,
}
use arko.Session.{contains}

-- What the class of the pattern leaves out.
unfoldable pub gap_code : ℕ → Bool
gap_code n =
    eqb n 9
    || eqb n 10
    || eqb n 12
    || eqb n 13
    || eqb n 32
    || eqb n b'<'
    || eqb n b'>'
    || eqb n b'"'
    || eqb n b'{'
    || eqb n b'}'
    || eqb n b'|'
    || eqb n 92
    || eqb n b'^'
    || eqb n b'['
    || eqb n b']'
    || eqb n 96

-- The longest run of the class at the start of a text.
unfoldable pub run_of : String → String
unfolding gap_code
run_of empty = empty
run_of (c ∷s s) = if gap_code (code c) then empty else c ∷s run_of s

-- What follows a prefix.
unfoldable pub strip : String → String → Option String
strip empty s = some s
strip (d ∷s p) empty = none
strip (d ∷s p) (c ∷s s) = if eqb (code d) (code c) then strip p s else none

abbrev pub with_body : String → String → Option String
with_body scheme empty = none
with_body scheme (c ∷s s) = some (scheme +s (c ∷s s))

-- What follows `https://` and what follows `http://`, if the text starts so.
abbrev pub match_with : Option String → Option String → Option String
match_with (some rest) plain = with_body "https://" (run_of rest)
match_with none (some rest) = with_body "http://" (run_of rest)
match_with none none = none

-- The match of the pattern at the start of a text.
unfoldable pub match_at : String → Option String
unfolding strip run_of
match_at s = match_with (strip "https://" s) (strip "http://" s)

abbrev pub chars : String → ℕ
chars empty = 0
chars (c ∷s s) = suc (chars s)

abbrev pub behind : Option String → ℕ
behind none = 0
behind (some u) = chars u - 1

abbrev pub found : Option String → List String → List String
found none us = us
found (some u) us = u ∷ us

-- `urlRegex.FindAllString text -1`; the number counts the characters left of the last match.
unfoldable pub find_all : ℕ → String → List String
unfolding match_at
find_all skip empty = []
find_all (suc skip) (c ∷s s) = find_all skip s
find_all zero (c ∷s s) = let m = match_at (c ∷s s) in found m (find_all (behind m) s)

-- The loop over the matches, with those that were seen.
unfoldable pub first_ones : List String → List String → List String
unfolding contains
first_ones seen [] = []
first_ones seen (u ∷ us) =
    let rest = first_ones (if contains u seen then seen else u ∷ seen) us in
    if contains u seen then rest else u ∷ rest

unfoldable pub extract_urls : String → List String
unfolding find_all first_ones
extract_urls text = first_ones [] (find_all 0 text)

unfoldable pub has_urls : String → Bool
unfolding extract_urls
has_urls text = ltb 0 (length (extract_urls text))
