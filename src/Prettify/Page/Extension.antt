-- ===== src/Prettify/Page/Extension.antt =====
-- The extension of a language in a class name.
use java_study_project.Base.{
  ℕ, ◌≡◌, ◌≢◌, refl, arith, Bool, true, false, ◌&&◌, [], ◌∷◌, ◌++◌, ◌==◌, All,
}
use java_study_project.Text.{Text, codes, eq_text, Lacks}
use java_study_project.Css.{is_word, starts_word, ends_word, differ}
use java_study_project.Prettify.NoCode.{word_of}
use java_study_project.Prettify.Document.{holds_extension, lang_extension}

word_of-append :
    (w s : Text) → All (λ c. is_word c ≡ true) w → starts_word s ≡ false → word_of (w ++ s) ≡ w
word_of-append [] [] letters e = refl
word_of-append [] (c ∷ s) letters e = rw e
word_of-append (c ∷ w) s (letter, letters) e = rw (letter, word_of-append w s letters e)

and_false : (a : Bool) → (a && false) ≡ false
and_false true = refl
and_false false = refl

holds_extension-other :
    (before : Bool) (c : ℕ) (s : Text) → c ≢ b'l' → holds_extension before (c ∷ s) ≡ false
holds_extension-other before c s h =
    let e : (c == b'l') ≡ false = ground arith in rw e (and_false (differ before (is_word c)))

eq_text-nil : (s : Text) → s ≢ [] → eq_text s [] ≡ false
eq_text-nil [] h = absurd (h refl)
eq_text-nil (c ∷ s) h = refl

-- The extension behind `lang-` is found to its end: what stands in front holds no letter l and ends with
-- no character of a word, the extension is one of letters, digits and underscores and is not empty, and
-- no such character follows it.
lang_extension-word_of :
    (before : Bool) (front extension behind : Text)
    → Lacks b'l' front
    → ends_word before front ≡ false
    → All (λ c. is_word c ≡ true) extension
    → extension ≢ []
    → starts_word behind ≡ false
    → lang_extension before (front ++ (codes "lang-" ++ (extension ++ behind))) ≡ extension
unfolding lang_extension
lang_extension-word_of before [] extension behind lacks ends letters full e =
    rw (ends, word_of-append extension behind letters e, eq_text-nil extension full)
lang_extension-word_of before (c ∷ front) extension behind lacks ends letters full e =
    rw (holds_extension-other before c _ lacks.0)
      (lang_extension-word_of (is_word c) front extension behind lacks.1 ends letters full e)
