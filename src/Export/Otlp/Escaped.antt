-- ===== src/Export/Otlp/Escaped.antt =====
-- `esc` of otlp.rs, and a reader of what it writes.
use Prim.Native.Char.{Char, code}
use text.Mathlib.TextEquality.{codes_equal}
use text.Mathlib.TextLemmas.{cons-append, nil-append}
use Prim.Native.String.{◌++◌}
use network_l4_monitoring_co.Base.{
  ◌≡◌, refl, sym, ap, ◌∙◌, subst, String, true, false, ◌||◌, Option, none, some, if◌then◌else◌,
  Bool, not, ◌&&◌, ltb, ◌==◌, ==_iff, arith, Bool-cases, inl, inr,
}
use network_l4_monitoring_co.Detect.Json.{json_escape}
use network_l4_monitoring_co.Export.Otlp.{esc}

-- A character in front of a text that was read.
abbrev pub with_char : Option Char → Option String → Option String
with_char none r = none
with_char (some c) none = none
with_char (some c) (some s) = some (String.◌∷◌ c s)

-- The character that stands for a letter after a backslash.
abbrev pub unescaped : Char → Option Char
unescaped d =
    if code d == 34
    then some "\""
    else if code d == 92
    then some "\\"
    else if code d == 110
    then some "\n"
    else if code d == 114
    then some "\r"
    else if code d == 116
    then some "\t"
    else none

-- What JSON forbids inside a string.
abbrev pub is_control : Char → Bool
is_control c = ltb (code c) 32

-- The text that the inside of a string of JSON stands for. Read are characters that are no
-- control characters, and the five escapes that the program writes; a bare quote would end the
-- string.
unfoldable pub unesc : String → Option String
unesc String.[] = some ""
unesc (String.◌∷◌ c String.[]) =
    if code c == 34 || code c == 92 || is_control c then none else some (String.◌∷◌ c "")
unesc (String.◌∷◌ c (String.◌∷◌ d s)) =
    let rest = unesc s in
    let next = unesc (String.◌∷◌ d s) in
    if code c == 34
    then none
    else if code c == 92
    then with_char (unescaped d) rest
    else if is_control c
    then none
    else with_char (some c) next

same_char : (c d : Char) → (code c == code d) ≡ true → c ≡ d
same_char c d h = codes_equal c d (ground (arith, (==_iff (code c) (code d)).0 h))

unesc-plain :
    (c : Char) (t : String)
    → (code c == 34) ≡ false
    → (code c == 92) ≡ false
    → unesc (String.◌∷◌ c t) ≡ (if is_control c then none else with_char (some c) (unesc t))
unfolding unesc
unesc-plain c String.[] h k = ground arith
unesc-plain c (String.◌∷◌ d t) h k = ground arith

-- A control character that the program does not escape.
abbrev pub is_bare : Char → Bool
is_bare c = is_control c && not (code c == 10 || code c == 13 || code c == 9)

unfoldable pub has_bare : String → Bool
has_bare String.[] = false
has_bare (String.◌∷◌ c s) = let rest = has_bare s in is_bare c || rest

-- What should be read of an escaped text.
abbrev pub read_back : String → Option String
read_back s = if has_bare s then none else some s

two_append :
    (a b : Char) (t : String) → String.◌∷◌ a (String.◌∷◌ b "") ++ t ≡ String.◌∷◌ a (String.◌∷◌ b t)
two_append a b t =
    cons-append a (String.◌∷◌ b "") t
    ∙ ap (String.◌∷◌ a) (cons-append b "" t ∙ ap (String.◌∷◌ b) (nil-append t))

-- An escape of two characters is read as the one that it stands for.
unesc-two :
    (b d : Char) (s t : String)
    → unescaped b ≡ some d
    → is_bare d ≡ false
    → unesc t ≡ read_back s
    → unesc (String.◌∷◌ "\\" (String.◌∷◌ b "") ++ t) ≡ read_back (String.◌∷◌ d s)
unfolding unesc has_bare
unesc-two b d s t e plain h =
    ap unesc (two_append "\\" b t)
    ∙ ap (λ o. with_char o (unesc t)) e
    ∙ ap (with_char (some d)) h
    ∙ ground (arith, plain)

Reads : Char → String → Type 0
Reads c s = unesc (esc (String.◌∷◌ c s)) ≡ read_back (String.◌∷◌ c s)

read_back-plain :
    (c : Char) (s : String)
    → (code c == 10) ≡ false
    → (code c == 13) ≡ false
    → (code c == 9) ≡ false
    → (if is_control c then none else with_char (some c) (read_back s)) ≡ read_back (String.◌∷◌ c s)
unfolding has_bare
read_back-plain c s n10 n13 n9 = ground arith

unesc-esc : (s : String) → unesc (esc s) ≡ read_back s
unfolding unesc esc Reads has_bare
unesc-esc String.[] = refl
unesc-esc (String.◌∷◌ c s) = elim (Bool-cases (code c == 34)) [
  | inl e ↦
      subst (λ d. Reads d s) (sym (same_char c "\"" e))
        (unesc-two "\"" "\"" s (esc s) refl refl (unesc-esc s))
  | inr n34 ↦ elim (Bool-cases (code c == 92)) [
    | inl e ↦
        subst (λ d. Reads d s) (sym (same_char c "\\" e))
          (unesc-two "\\" "\\" s (esc s) refl refl (unesc-esc s))
    | inr n92 ↦ elim (Bool-cases (code c == 10)) [
      | inl e ↦
          subst (λ d. Reads d s) (sym (same_char c "\n" e))
            (unesc-two "n" "\n" s (esc s) refl refl (unesc-esc s))
      | inr n10 ↦ elim (Bool-cases (code c == 13)) [
        | inl e ↦
            subst (λ d. Reads d s) (sym (same_char c "\r" e))
              (unesc-two "r" "\r" s (esc s) refl refl (unesc-esc s))
        | inr n13 ↦ elim (Bool-cases (code c == 9)) [
          | inl e ↦
              subst (λ d. Reads d s) (sym (same_char c "\t" e))
                (unesc-two "t" "\t" s (esc s) refl refl (unesc-esc s))
          | inr n9 ↦ ground (
            arith,
            n34,
            n92,
            n10,
            n13,
            n9,
            unesc-plain c (esc s) n34 n92,
            unesc-esc s,
            read_back-plain c s n10 n13 n9,
          )
        ]
      ]
    ]
  ]
]

-- Both escapes of the program are one function.
esc-json_escape : (s : String) → esc s ≡ json_escape s
unfolding esc json_escape
esc-json_escape String.[] = refl
esc-json_escape (String.◌∷◌ c s) = ground (arith, esc-json_escape s)

-- The two escapes of the program write the same text. It is read back as the text that was escaped,
-- if that has no control characters but newline, carriage return and tab; otherwise it is not the
-- inside of a string of JSON, since a control character stands in it.
pub unesc-json_escape :
    (s : String) → (unesc (json_escape s) ≡ read_back s) × (esc s ≡ json_escape s)
unesc-json_escape s = (ap unesc (sym (esc-json_escape s)) ∙ unesc-esc s, esc-json_escape s)
