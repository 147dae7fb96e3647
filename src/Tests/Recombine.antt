-- ===== src/Tests/Recombine.antt =====
-- Weaving tags and styles into a text, `webapps/admin/js/prettify.js`.
use mathlib.Core.List.{flatten}
use java_study_project.Base.{arith, ◌≡◌, refl, List, [], ◌∷◌, map, true, false}
use java_study_project.Text.{Text, codes, replace_char, Lacks}
use java_study_project.Prettify.Tabs.{tab_expander}
use java_study_project.Prettify.Recombine.{Mark, recombine, recombined}
use java_study_project.Prettify.Recombine.Seen.{seen}
use java_study_project.Prettify.Recombine.TagPlaces.{recombined-tags_seen}
use java_study_project.Prettify.Recombine.TagText.{tags_seen}
use java_study_project.Prettify.Recombine.Screen.{recombined-seen}
use java_study_project.Prettify.Recombine.Reading.{read, painted}
use java_study_project.Prettify.Recombine.Result.{recombined-read}

abbrev tags : List Mark
tags = record { at = 2; text = codes "<b>" } ∷ record { at = 5; text = codes "</b>" } ∷ []

abbrev styles : List Mark
styles =
    record { at = 0; text = codes "kwd" }
    ∷ record { at = 3; text = codes "pln" }
    ∷ record { at = 4; text = codes "str" }
    ∷ []

recombined-read_example : read (recombined false 8 (codes "if (a < b)") tags styles).html ≡ record {
  well_nested = true;
  style = [];
  shown = painted [] styles 0 (codes "if (a < b)");
  tags = map (λ m. m.text) tags;
}
recombined-read_example = recombined-read false 8 (codes "if (a < b)") tags styles

output :
    recombine false 8 (codes "if (a)") tags styles
    ≡ codes
        "<span class=\"kwd\">if</span><b><span class=\"kwd\"> </span><span class=\"pln\">(</span><span class=\"str\">a</span></b><span class=\"str\">)</span>"
unfolding recombine
output = refl

abbrev source : Text
source = codes "a\tb <c>\n  d"

no_return : Lacks 0xd source
no_return = ground arith

recombined-seen_example : seen (recombined true 4 source tags styles).html ≡ codes "a   b <c> \n  d"
unfolding replace_char tab_expander flatten
recombined-seen_example = recombined-seen true 4 source tags styles no_return

-- A tag stands in front of the second line, and one at its end.
abbrev line_tags : List Mark
line_tags = record { at = 8; text = codes "<b>" } ∷ record { at = 11; text = codes "</b>" } ∷ []

recombined-tags_seen_example :
    tags_seen (recombined true 4 source line_tags styles).html
    ≡ (codes "a   b <c> \n", codes "<b>") ∷ (codes "a   b <c> \n  d", codes "</b>") ∷ []
unfolding replace_char tab_expander flatten
recombined-tags_seen_example =
    recombined-tags_seen true 4 source line_tags styles no_return
      (omega arith, (omega arith, omega arith))
