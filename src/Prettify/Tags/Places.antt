-- ===== src/Prettify/Tags/Places.antt =====
-- The text and the tags of html without sections of the class nocode, chunk by chunk.
use mathlib.Core.List.{flatten}
use java_study_project.Base.{
  ℕ, ◌+◌, ◌≡◌, Bool, true, false, false, not, ◌&&◌, List, [], ◌∷◌, ◌++◌, length, if◌then◌else◌,
}
use java_study_project.Text.{Text, codes}
use java_study_project.Prettify.Html.{html_to_text}
use java_study_project.Prettify.NoCode.{is_no_code_tag}
use java_study_project.Prettify.Recombine.{Mark}
use java_study_project.Prettify.Tags.{Extracted, is_br, is_markup_chunk}
use java_study_project.Prettify.Tags.Shape.{is_comment}

-- The text of a chunk, and whether it is put aside as a tag.
unfoldable pub text_of : Text → Text
text_of m =
    if is_markup_chunk m
    then (if is_comment m then [] else if is_br m then codes "\n" else [])
    else html_to_text m

unfoldable pub is_tag : Text → Bool
is_tag m = is_markup_chunk m && (not (is_comment m) && not (is_br m))

unfoldable pub texts_of : List Text → Text
texts_of [] = []
texts_of (m ∷ ms) = text_of m ++ texts_of ms

-- A tag stands at the length of the text in front of it.
unfoldable pub tags_from : ℕ → List Text → List Mark
tags_from n [] = []
tags_from n (m ∷ ms) =
    (if is_tag m then record { at = n; text = m } ∷ [] else [])
    ++ tags_from (n + length (text_of m)) ms

-- If the chunk is a tag, it is not one of the class nocode.
abbrev pub IsColoured : Text → Type 0
IsColoured m = is_tag m ≡ true → is_no_code_tag m ≡ false

record IsPlaced (e : Extracted) (done : Text) (tags : List Mark) : Type 0 where
  text : flatten e.source_buf ≡ done
  counted : e.source_buf_len ≡ length done
  placed : e.extracted_tags ≡ tags
