-- ===== src/Prettify/Charset/Escapes.antt =====
-- Reading back what `encodeEscape` writes.
use java_study_project.Base.{
  ℕ, ◌≡◌, ◌∙◌, refl, true, false, arith, ltb, ◌==◌, ==_iff, if◌then◌else◌, inl, inr, Bool-cases,
  holds_on, holds_on_at, ltb→lt,
}
use java_study_project.Prettify.Characters.{decode_escape, encode_escape}

control_table :
    holds_on (λ c. decode_escape (encode_escape c) == (if c == 0 then b'x' else c)) 0 32 ≡ true
unfolding holds_on decode_escape encode_escape
control_table = refl

printable : (c : ℕ) → ltb c 0x20 ≡ false → decode_escape (encode_escape c) ≡ c
unfolding decode_escape encode_escape
printable c h = ground arith

large_case : (c : ℕ) → ltb c 0x20 ≡ false → c ≡ (if c == 0 then b'x' else c)
large_case c h = ground arith

-- Every character is written so that `decodeEscape` gives it back, but for the null character:
-- `\x00` is read as the letter x, since `parseInt` gives 0 there and the code goes on behind `||`.
pub decode_escape-encode_escape :
    (c : ℕ) → decode_escape (encode_escape c) ≡ (if c == 0 then b'x' else c)
decode_escape-encode_escape c = elim (Bool-cases (ltb c 0x20)) [
  | inl small ↦ (==_iff (decode_escape (encode_escape c)) (if c == 0 then b'x' else c)).0 (
      holds_on_at (λ d. decode_escape (encode_escape d) == (if d == 0 then b'x' else d)) 0 32 c
        control_table (omega arith) (ltb→lt c 0x20 small))
  | inr large ↦ printable c large ∙ large_case c large
]
