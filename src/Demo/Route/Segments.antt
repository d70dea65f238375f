-- ===== src/Demo/Route/Segments.antt =====
-- The anchored endpoint patterns of services/mockRouter.ts, such as `/^\/agents\/([^/]+)\/key$/`.
-- Their segments hold no slash, so such a pattern is a list of parts that is matched against the
-- parts of the endpoint between its slashes, the empty part before the first slash included.
use Prim.Native.Char.{Char, code}
use everyup.Common.{
  ℕ, String, Bool, true, false, Option, some, none, List, [], ◌∷◌, ◌≡◌, refl, if◌then◌else◌, nat_eq,
  ◌==◌, ◌+++◌,
}

-- A literal part, and `([^/]+)`.
pub data Piece : Type 0 where
  word : String → Piece
  seg : Piece

abbrev pub is_slash : ℕ → Bool
is_slash c = nat_eq c b'/'

abbrev attach : Char → List String → List String
attach c [] = (String.◌∷◌ c String.[]) ∷ []
attach c (p ∷ ps) = (String.◌∷◌ c p) ∷ ps

unfoldable pub split_slash : String → List String
split_slash String.[] = String.[] ∷ []
split_slash (String.◌∷◌ c s) =
    let rest = split_slash s in if is_slash (code c) then String.[] ∷ rest else attach c rest

abbrev pub is_empty : String → Bool
is_empty String.[] = true
is_empty (String.◌∷◌ c s) = false

abbrev pub prepend : String → Option (List String) → Option (List String)
prepend s none = none
prepend s (some cs) = some (s ∷ cs)

-- The captured segments, if every part fits and none is left over.
unfoldable pub match_parts : List Piece → List String → Option (List String)
match_parts [] [] = some []
match_parts [] (p ∷ qs) = none
match_parts (x ∷ ps) [] = none
match_parts (word w ∷ ps) (p ∷ qs) = let rest = match_parts ps qs in if p == w then rest else none
match_parts (seg ∷ ps) (p ∷ qs) =
    let rest = match_parts ps qs in if is_empty p then none else prepend p rest

-- A text that `([^/]+)` matches whole: one character at least, and no slash.
abbrev pub NoSlash : String → Type 0
NoSlash String.[] = Unit
NoSlash (String.◌∷◌ c s) = (is_slash (code c) ≡ false) × NoSlash s

abbrev pub IsSegment : String → Type 0
IsSegment s = (is_empty s ≡ false) × NoSlash s

pub split_slash_whole : (s : String) → NoSlash s → split_slash s ≡ s ∷ []
unfolding split_slash
split_slash_whole String.[] h = refl
split_slash_whole (String.◌∷◌ c s) h = rw (h.0, split_slash_whole s h.1) refl

pub split_slash-+++ : (s t : String) → NoSlash s → split_slash (s +++ "/" +++ t) ≡ s ∷ split_slash t
unfolding split_slash
split_slash-+++ String.[] t h = refl
split_slash-+++ (String.◌∷◌ c s) t h = rw (h.0, split_slash-+++ s t h.1) refl
