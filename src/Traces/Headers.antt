-- ===== src/Traces/Headers.antt =====
-- The headers that the panel of a trace shows: features/traces/components/TracePanel.tsx.
use Prim.Native.Char.{code}
use Prim.Native.String.{String}
use mathlib.Core.Path.{ap₂}
use text.Mathlib.TextEquality.{Char-path}
use everyup.Common.{
  ◌+◌, Bool, true, false, some, List, [], ◌∷◌, ◌≡◌, refl, ◌&&◌, not, ◌+++◌, keep, sort_by, IsSorted,
  sort_by-IsSorted, All, All-sort_by, length, suc, insert_by, is_some, arith, Bool-cases, inl, inr,
  Option-cases, nat_eq, after_prefix, ap, sym, ◌∙◌, ◌⊎◌,
}
use everyup.Traces.Spans.{
  AttrValue, Attributes, TraceSpan, HeaderEntry, header_value, request_prefix, response_prefix,
  request_headers, response_headers, by_name, headers_of,
}

prefix_again : (p s rest : String) → after_prefix p s ≡ some rest → p +++ rest ≡ s
prefix_again String.[] s rest h = ground arith
prefix_again (String.◌∷◌ c p) String.[] rest h = absurd (ground arith)
prefix_again (String.◌∷◌ c p) (String.◌∷◌ d s) rest h =
    elim (Bool-cases (nat_eq (code c) (code d))) [
      | inl e ↦ ap₂ String.◌∷◌ (Char-path c d (ground arith)) (prefix_again p s rest (ground arith))
      | inr e ↦ absurd (ground arith)
    ]

-- The attribute of a key with a value.
abbrev pub Has : String → AttrValue → Attributes → Type 0
Has k v [] = ⊥
Has k v ((j, u) ∷ m) = ((j ≡ k) × (u ≡ v)) ⊎ Has k v m

-- A header that is shown stands among the attributes, under its name with the prefix.
abbrev pub IsHeader : String → Attributes → HeaderEntry → Type 0
IsHeader prefix m h = (v : AttrValue) × (Has (prefix +++ h.name) v m × (header_value v ≡ h.value))

IsHeader-later :
    (prefix : String) (a : String × AttrValue) (m : Attributes) (hs : List HeaderEntry)
    → All (IsHeader prefix m) hs
    → All (IsHeader prefix (a ∷ m)) hs
IsHeader-later prefix a m [] h = tt
IsHeader-later prefix a m (x ∷ hs) ((v, (i, e)), h) =
    ((v, (inr i, e)), IsHeader-later prefix a m hs h)

request_headers_sound : (m : Attributes) → All (IsHeader request_prefix m) (request_headers m)
unfolding request_headers
request_headers_sound [] = tt
request_headers_sound ((k, v) ∷ m) = elim (Option-cases (after_prefix request_prefix k)) [
  | inl e ↦
      rw e (IsHeader-later request_prefix (k, v) m (request_headers m) (request_headers_sound m))
  | inr (name, e) ↦ rw e (
    (v, (inl (sym (prefix_again request_prefix k name e), refl), refl)),
    IsHeader-later request_prefix (k, v) m (request_headers m) (request_headers_sound m),
  )
]

response_headers_sound : (m : Attributes) → All (IsHeader response_prefix m) (response_headers m)
unfolding response_headers
response_headers_sound [] = tt
response_headers_sound ((k, v) ∷ m) = elim (Option-cases (after_prefix request_prefix k)) [
  | inr (name, e) ↦
      rw e (IsHeader-later response_prefix (k, v) m (response_headers m) (response_headers_sound m))
  | inl e ↦ elim (Option-cases (after_prefix response_prefix k)) [
    | inl f ↦
        rw (e, f)
          (IsHeader-later response_prefix (k, v) m (response_headers m) (response_headers_sound m))
    | inr (name, f) ↦
        rw (e, f)
          (
            (v, (inl (sym (prefix_again response_prefix k name f), refl), refl)),
            IsHeader-later response_prefix (k, v) m (response_headers m) (response_headers_sound m),
          )
  ]
]

-- The attributes that are no header.
abbrev pub is_other : String × AttrValue → Bool
is_other (k, v) =
    not (is_some (after_prefix request_prefix k)) && not (is_some (after_prefix response_prefix k))

header_count :
    (m : Attributes)
    → length (request_headers m) + length (response_headers m) + length (keep is_other m) ≡ length m
unfolding request_headers response_headers
header_count [] = refl
header_count ((k, v) ∷ m) = elim (Option-cases (after_prefix request_prefix k)) [
  | inr (name, e) ↦ rw e (omega (arith, header_count m))
  | inl e ↦ elim (Option-cases (after_prefix response_prefix k)) [
    | inl f ↦ rw (e, f) (omega (arith, header_count m))
    | inr (name, f) ↦ rw (e, f) (omega (arith, header_count m))
  ]
]

length-insert_by :
    {A : Type 0} (le : A → A → Bool) (x : A) (xs : List A)
    → length (insert_by le x xs) ≡ suc (length xs)
unfolding insert_by
length-insert_by le x [] = refl
length-insert_by le x (y ∷ ys) = ground (arith, length-insert_by le x ys)

length-sort_by : {A : Type 0} (le : A → A → Bool) (xs : List A) → length (sort_by le xs) ≡ length xs
unfolding sort_by
length-sort_by le [] = refl
length-sort_by le (x ∷ xs) = length-insert_by le x (sort_by le xs) ∙ ap suc (length-sort_by le xs)

-- For a span, the headers of the request and of the response stand in the order of their names,
-- each is an attribute under its name with the prefix of its kind, and together with the attributes
-- that have neither prefix they are as many as the attributes; the comparison of names is taken to
-- be total and transitive.
pub headers_of_lem :
    (le : String → String → Bool)
    → ((a b : String) → le a b ≡ false → le b a ≡ true)
    → ((a b c : String) → le a b ≡ true → le b c ≡ true → le a c ≡ true)
    → (s : TraceSpan)
    → (IsSorted (by_name le) (headers_of le s).request
        × IsSorted (by_name le) (headers_of le s).response)
      × ((All (IsHeader request_prefix s.attributes) (headers_of le s).request
            × All (IsHeader response_prefix s.attributes) (headers_of le s).response)
          × (length (headers_of le s).request
                + length (headers_of le s).response
                + length (keep is_other s.attributes)
              ≡ length s.attributes))
headers_of_lem le total chained s = (
  (
    sort_by-IsSorted (by_name le) (λ a b. total a.name b.name)
        (λ a b c. chained a.name b.name c.name) _,
    sort_by-IsSorted (by_name le) (λ a b. total a.name b.name)
        (λ a b c. chained a.name b.name c.name) _,
  ),
  (
    (
      All-sort_by (by_name le) _ _ (request_headers_sound s.attributes),
      All-sort_by (by_name le) _ _ (response_headers_sound s.attributes),
    ),
    omega (
      arith,
      length-sort_by (by_name le) (request_headers s.attributes),
      length-sort_by (by_name le) (response_headers s.attributes),
      header_count s.attributes,
    ),
  ),
)
