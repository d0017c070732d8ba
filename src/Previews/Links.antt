-- ===== src/Previews/Links.antt =====
-- The links of a text, word by word.
use Prim.Native.Char.{Char, code}
use Prim.Native.String.{[] as empty, ◌∷◌ as ◌∷s◌}
use arko.Base.{
  String, ◌+s◌, Bool, true, false, ◌||◌, ◌≡◌, Option, none, some, List, [], ◌∷◌, if◌then◌else◌,
}
use arko.Session.{contains}
use arko.Previews.Extract.{gap_code, strip, found}

-- A text without a character that ends a link.
abbrev pub IsWord : String → Type 0
IsWord empty = Unit
IsWord (c ∷s s) = (gap_code (code c) ≡ false) × IsWord s

-- What follows a word: nothing, or a character that ends a link.
abbrev IsEnd : String → Type 0
IsEnd empty = Unit
IsEnd (c ∷s s) = gap_code (code c) ≡ true

abbrev has_more : Option String → Bool
has_more none = false
has_more (some empty) = false
has_more (some (c ∷s s)) = true

-- A word is a link if something follows one of the two schemes.
unfoldable is_link : String → Bool
unfolding strip
is_link w = has_more (strip "https://" w) || has_more (strip "http://" w)

-- The link of a word: its end from the first place on where a link starts.
pub link_of : String → Option String
unfolding is_link
link_of empty = none
link_of (c ∷s s) = if is_link (c ∷s s) then some (c ∷s s) else link_of s

abbrev put_behind : Option String → String → Option String
put_behind none t = none
put_behind (some r) t = some (r +s t)

-- A text by its words, each with the character behind it, and the last word.
abbrev pub text_of : List (String × Char) → String → String
text_of [] last = last
text_of ((w, c) ∷ ws) last = w +s (c ∷s text_of ws last)

abbrev pub links : List (String × Char) → String → List String
links [] last = found (link_of last) []
links ((w, c) ∷ ws) last = found (link_of w) (links ws last)

abbrev pub IsDistinct : List String → Type 0
IsDistinct [] = Unit
IsDistinct (u ∷ us) = (contains u us ≡ false) × IsDistinct us
