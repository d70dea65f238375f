-- ===== src/Setup/Shell.antt =====
-- The command that installs a collector: shellQuote and buildInstallCommand of
-- features/services/components/AddServiceModal.tsx.
use Prim.Native.Char.{Char, char, code}
use Prim.Native.String.{String}
use text.Mathlib.TextEquality.{Char-path}
use everyup.Common.{
  Bool, Option, some, none, ◌≡◌, refl, ap, sym, ◌∙◌, ◌+++◌, ◌==◌, nat_eq, ◌||◌, ◌&&◌, if◌then◌else◌,
  arith, Bool-cases, inl, inr,
}

abbrev is_quote : Char → Bool
is_quote c = nat_eq (code c) 39

-- `replace(/'/g, ...)`, whose replacement is '"'"'.
escaped : String → String
escaped String.[] = ""
escaped (String.◌∷◌ c s) =
    let rest = escaped s in if is_quote c then "'\"'\"'" +++ rest else String.◌∷◌ c rest

unfoldable pub shell_quote : String → String
unfolding escaped
shell_quote s = "'" +++ escaped s +++ "'"

-- `replace(/\/+$/, '')`.
unfoldable pub without_slashes : String → String
without_slashes String.[] = ""
without_slashes (String.◌∷◌ c s) =
    let rest = without_slashes s in
    if nat_eq (code c) 47 && (rest == "") then "" else String.◌∷◌ c rest

abbrev or_placeholder : String → String
or_placeholder s = if s == "" then "http://EVERYUP_WEB_SERVER:3001" else s

unfoldable pub build_install_command : (String → String) → String → String → String
unfolding shell_quote without_slashes
build_install_command trim url code =
    let base = or_placeholder (without_slashes (trim url)) in
    "curl -fsSL "
    +++ shell_quote (base +++ "/api/v1/agents/install.sh")
    +++ " | sudo sh -s -- "
    +++ shell_quote base
    +++ " "
    +++ shell_quote code

-- How a shell reads a word that is all quoted: in single quotes each character stands for itself;
-- in double quotes each does but $, ` and \. Any other word is `none`.
pub data Quoting : Type 0 where
  bare single double : Quoting

abbrev is_special : Char → Bool
is_special c = nat_eq (code c) 36 || (nat_eq (code c) 96 || nat_eq (code c) 92)

abbrev with_char : Char → Option String → Option String
with_char c none = none
with_char c (some s) = some (String.◌∷◌ c s)

unfoldable pub shell_word : Quoting → String → Option String
shell_word Quoting.bare String.[] = some ""
shell_word Quoting.single String.[] = none
shell_word Quoting.double String.[] = none
shell_word Quoting.bare (String.◌∷◌ c s) =
    let to_single = shell_word Quoting.single s in
    let to_double = shell_word Quoting.double s in
    if is_quote c then to_single else if nat_eq (code c) 34 then to_double else none
shell_word Quoting.single (String.◌∷◌ c s) =
    let closed = shell_word Quoting.bare s in
    let rest = shell_word Quoting.single s in if is_quote c then closed else with_char c rest
shell_word Quoting.double (String.◌∷◌ c s) =
    let closed = shell_word Quoting.bare s in
    let rest = shell_word Quoting.double s in
    if nat_eq (code c) 34 then closed else if is_special c then none else with_char c rest

reads_escaped : (s : String) → shell_word Quoting.single (escaped s +++ "'") ≡ some s
unfolding shell_word escaped
reads_escaped String.[] = refl
reads_escaped (String.◌∷◌ c s) = elim (Bool-cases (is_quote c)) [
  | inl e ↦ rw e (
      ap (with_char (char 39 tt)) (reads_escaped s)
      ∙ ap (λ d. some (String.◌∷◌ d s)) (sym (Char-path c (char 39 tt) (ground arith))))
  | inr e ↦ rw e (rw e (ap (with_char c) (reads_escaped s)))
]

-- Whatever a text has in it, a shell reads its quotation as one word that is the text itself.
pub shell_word-shell_quote : (s : String) → shell_word Quoting.bare (shell_quote s) ≡ some s
unfolding shell_word shell_quote
shell_word-shell_quote s = reads_escaped s
