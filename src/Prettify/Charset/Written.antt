-- ===== src/Prettify/Charset/Written.antt =====
-- Taking apart what `caseFoldCharset` puts together: parts of a written class, one by one.
use mathlib.Core.List.{flatten}
use mathlib.Core.Path.{subst}
use java_study_project.Base.{
  ℕ, ◌/◌, ◌%◌, ◌≡◌, ◌∙◌, refl, sym, ap, arith, Bool, true, false, not, ◌&&◌, ◌||◌, List, [], ◌∷◌,
  ◌++◌, append_assoc, All, ltb, leb, ◌==◌, ltb→lt, inl, inr, Bool-cases, holds_on, holds_on_at,
  and_split,
}
use java_study_project.Text.{Text, codes, eq_text}
use java_study_project.Text.Search.{eq_text-true}
use java_study_project.Prettify.Characters.{hex_digit, encode_escape}
use java_study_project.Prettify.Charset.{is_hex, escape_length, charset_parts, is_group}

-- A text that is cut off as one part, whatever follows it.
abbrev pub IsPart : Text → Type 0
IsPart t = (rest : Text) → charset_parts (t ++ rest) 0 ≡ t ∷ charset_parts rest 0

pub parts-flatten :
    (ts : List Text) (rest : Text)
    → All IsPart ts
    → charset_parts (flatten ts ++ rest) 0 ≡ ts ++ charset_parts rest 0
unfolding flatten
parts-flatten [] rest h = refl
parts-flatten (t ∷ ts) rest h =
    rw (append_assoc t (flatten ts) rest)
      (h.0 (flatten ts ++ rest) ∙ ap (λ r. t ∷ r) (parts-flatten ts rest h.1))

-- A control character as it is written.
abbrev hex_escape : ℕ → Text
hex_escape c = b'\\' ∷ b'x' ∷ hex_digit (c / 16) ∷ hex_digit (c % 16) ∷ []

abbrev is_hex_escape : ℕ → Bool
is_hex_escape c =
    eq_text (encode_escape c) (hex_escape c)
    && (is_hex (hex_digit (c / 16)) && is_hex (hex_digit (c % 16)))

hex_escape_table : holds_on is_hex_escape 0 32 ≡ true
unfolding holds_on encode_escape
hex_escape_table = refl

hex-IsPart : (a b : ℕ) → is_hex a ≡ true → is_hex b ≡ true → IsPart (b'\\' ∷ b'x' ∷ a ∷ b ∷ [])
unfolding charset_parts
hex-IsPart a b h k rest = rw (h, k) refl

control : (c : ℕ) → ltb c 0x20 ≡ true → is_hex_escape c ≡ true
control c small =
    holds_on_at is_hex_escape 0 32 c hex_escape_table (omega arith) (ltb→lt c 0x20 small)

-- A character that is written with a backslash, or as it is.
abbrev is_special : ℕ → Bool
is_special c = c == b'\\' || c == b'-' || c == b'[' || c == b']'

-- No digit and no letter by which a longer escape starts.
abbrev is_short : ℕ → Bool
is_short c = not (c == b'u' || c == b'x' || leb b'0' c && leb c b'7')

escape_length-short : (c : ℕ) (s : Text) → is_short c ≡ true → escape_length c s ≡ 2
escape_length-short c s short = ground arith

short-IsPart : (c : ℕ) → is_short c ≡ true → IsPart (b'\\' ∷ c ∷ [])
unfolding charset_parts
short-IsPart c short rest = rw (escape_length-short c rest short) refl

special-is_short : (c : ℕ) → is_special c ≡ true → is_short c ≡ true
special-is_short c special = ground arith

plain-IsPart : (c : ℕ) → is_special c ≡ false → IsPart (c ∷ [])
unfolding charset_parts
plain-IsPart c plain [] = let e : (c == b'\\') ≡ false = ground arith in rw e refl
plain-IsPart c plain (d ∷ rest) = let e : (c == b'\\') ≡ false = ground arith in rw e refl

special_written : (c : ℕ) → is_special c ≡ true → encode_escape c ≡ b'\\' ∷ c ∷ []
unfolding encode_escape
special_written c special = ground arith

plain_written : (c : ℕ) → ltb c 0x20 ≡ false → is_special c ≡ false → encode_escape c ≡ c ∷ []
unfolding encode_escape
plain_written c large plain = ground arith

-- What holds of each of the three ways to write a character holds of the written character.
written_cases :
    (P : Text → Type 0) (c : ℕ)
    → (is_hex (hex_digit (c / 16)) ≡ true → is_hex (hex_digit (c % 16)) ≡ true → P (hex_escape c))
    → (is_special c ≡ true → P (b'\\' ∷ c ∷ []))
    → (is_special c ≡ false → P (c ∷ []))
    → P (encode_escape c)
written_cases P c hex escaped plain = elim (Bool-cases (ltb c 0x20)) [
  | inl small ↦
      let (same, digits) = and_split _ _ (control c small) in
      let (first, second) = and_split _ _ digits in
      subst P (sym (eq_text-true (encode_escape c) (hex_escape c) same)) (hex first second)
  | inr large ↦ elim (Bool-cases (is_special c)) [
    | inl e ↦ subst P (sym (special_written c e)) (escaped e)
    | inr e ↦ subst P (sym (plain_written c large e)) (plain e)
  ]
]

-- A written character is one part, whatever follows it.
pub encode_escape-IsPart : (c : ℕ) → IsPart (encode_escape c)
encode_escape-IsPart c =
    written_cases IsPart c (hex-IsPart (hex_digit (c / 16)) (hex_digit (c % 16)))
      (λ e. short-IsPart c (special-is_short c e)) (plain-IsPart c)

-- No written character is a group.
pub is_group-encode_escape : (c : ℕ) → is_group (encode_escape c) ≡ false
is_group-encode_escape c =
    written_cases (λ t. is_group t ≡ false) c (λ h k. refl) (λ e. ground arith) (λ e. ground arith)

-- No written character is a hyphen alone.
pub hyphen-encode_escape : (c : ℕ) → eq_text (encode_escape c) (codes "-") ≡ false
hyphen-encode_escape c =
    written_cases (λ t. eq_text t (codes "-") ≡ false) c (λ h k. refl) (λ e. refl)
      (λ e. ground arith)

-- A written character is a caret alone just when it is the caret.
pub caret-encode_escape :
    (c : ℕ) → (c == b'^') ≡ false → eq_text (encode_escape c) (codes "^") ≡ false
caret-encode_escape c other =
    written_cases (λ t. eq_text t (codes "^") ≡ false) c (λ h k. refl) (λ e. refl)
      (λ e. ground arith)

-- The letter of a group such as `\d`.
abbrev is_group_letter : ℕ → Bool
is_group_letter c =
    c == b'B'
    || c == b'b'
    || c == b'D'
    || c == b'd'
    || c == b'S'
    || c == b's'
    || c == b'W'
    || c == b'w'

group_letter :
    (p : Text) → is_group p ≡ true → (c : ℕ) × (p ≡ b'\\' ∷ c ∷ []) × (is_group_letter c ≡ true)
group_letter [] h = cc
group_letter (a ∷ []) h = absurd (ground arith)
group_letter (a ∷ b ∷ []) h = (b, ground arith, ground arith)
group_letter (a ∷ b ∷ d ∷ s) h = absurd (ground arith)

letter-is_short : (c : ℕ) → is_group_letter c ≡ true → is_short c ≡ true
letter-is_short c h = ground arith

pub group-IsPart : (p : Text) → is_group p ≡ true → IsPart p
group-IsPart p h =
    let (c, same, letter) = group_letter p h in
    subst IsPart (sym same) (short-IsPart c (letter-is_short c letter))

-- No group is a caret.
pub caret-group : (p : Text) → is_group p ≡ true → eq_text p (codes "^") ≡ false
caret-group p h = let (c, same, letter) = group_letter p h in rw same refl
