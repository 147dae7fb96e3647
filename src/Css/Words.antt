-- ===== src/Css/Words.antt =====
-- Finding a word of letters, digits and underscores in a class name.
use java_study_project.Base.{
  Bool, true, false, ◌||◌, ◌≡◌, ◌≢◌, refl, arith, [], ◌∷◌, ◌++◌, All, drop-length_append,
  append-nil,
}
use java_study_project.Text.{Text, starts_with}
use java_study_project.Css.{is_word, starts_word, ends_word, word_here, has_word}

abbrev pub IsWord : Text → Type 0
IsWord = All (λ c. is_word c ≡ true)

pub starts_with-append : (w s : Text) → starts_with w (w ++ s) ≡ true
starts_with-append [] s = refl
starts_with-append (c ∷ w) s = ground (arith, starts_with-append w s)

ends_word-IsWord : (w : Text) → IsWord w → ends_word true w ≡ true
ends_word-IsWord [] h = refl
ends_word-IsWord (c ∷ w) h = rw (h.0, ends_word) (ends_word-IsWord w h.1)

-- A word stands where it is set off on both sides.
pub word_here-append :
    (w s : Text) → IsWord w → w ≢ [] → starts_word s ≡ false → word_here w false (w ++ s) ≡ true
word_here-append [] s h n e = absurd (n refl)
word_here-append (c ∷ w) s h n e =
    rw (h.0, starts_with-append (c ∷ w) s, drop-length_append w s, e, ends_word-IsWord w h.1)

has_word-head :
    (w : Text) (before : Bool) (s : Text) → word_here w before s ≡ true → has_word w before s ≡ true
unfolding has_word
has_word-head w before [] h = h
has_word-head w before (c ∷ s) h = rw h

-- At the head of a class name, before anything that is no character of a word.
pub has_word-prefix :
    (w s : Text) → IsWord w → w ≢ [] → starts_word s ≡ false → has_word w false (w ++ s) ≡ true
has_word-prefix w s h n e = has_word-head w false (w ++ s) (word_here-append w s h n e)

or_right : (a b : Bool) → b ≡ true → (a || b) ≡ true
or_right a b h = ground arith

-- Behind a blank at the end of a class name.
pub has_word-last :
    (w s : Text) (before : Bool) → IsWord w → w ≢ [] → has_word w before (s ++ b' ' ∷ w) ≡ true
unfolding has_word
has_word-last w [] before h n =
    or_right (word_here w before (b' ' ∷ w)) (has_word w false w)
      (rw append-nil at (has_word-prefix w [] h n refl))
has_word-last w (c ∷ s) before h n =
    or_right (word_here w before (c ∷ (s ++ b' ' ∷ w))) (has_word w (is_word c) (s ++ b' ' ∷ w))
      (has_word-last w s (is_word c) h n)
