-- ===== src/Prettify/Markup.antt =====
-- A call of `registerLangHandler`, and the calls for markup.

use java_study_project.Base.{true, false, Option, List, [], ◌∷◌, ◌++◌}
use java_study_project.Text.{Text, codes}
use java_study_project.Prettify.RegExp.{RegExp, reg_exp, reg_exp_i}
use java_study_project.Prettify.Keywords.{all_keywords}
use java_study_project.Prettify.Lexer.{Lexer, pr_plain}
use java_study_project.Prettify.Simple.{StylePattern, Engine, create_simple_lexer}
use java_study_project.Prettify.Sources.{Options, source_decorator, pr_comment, pr_punctuation}

abbrev pub pr_tag : Text
pr_tag = codes "tag"

abbrev pub pr_declaration : Text
pr_declaration = codes "dec"

abbrev pub pr_attrib_name : Text
pr_attrib_name = codes "atn"

abbrev pub pr_attrib_value : Text
pr_attrib_value = codes "atv"

-- A pattern without a shortcut.
abbrev pub style_pattern : Text → RegExp → StylePattern
style_pattern style regexp = record { style = style; regexp = regexp; shortcut = [] }

-- A call that makes a handler: of `sourceDecorator`, or of `createSimpleLexer`.
pub data Maker : Type 0 where
  decorator : Options → Maker
  simple : List StylePattern → StylePattern → List StylePattern → Maker

abbrev pub make : Engine → Maker → Option Lexer
make engine (decorator options) = source_decorator engine options
make engine (simple shortcuts first others) = create_simple_lexer engine shortcuts first others

pub record Registration : Type 0 where
  pub maker : Maker
  pub extensions : List Text

abbrev pub register_default_code : Registration
register_default_code = record {
  maker = decorator (record {
    keywords = all_keywords;
    hash_comments = true;
    c_style_comments = true;
    multi_line_strings = true;
    triple_quoted_strings = false;
    regex_literals = true;
  });
  extensions = codes "default-code" ∷ [];
}

abbrev pub register_markup : Registration
register_markup = record {
  maker = simple [] (style_pattern (pr_plain) (reg_exp (codes "^[^<?]+"))) (
      style_pattern (pr_declaration) (reg_exp (codes "^<!\\w[^>]*(?:>|$)"))
      ∷ style_pattern (pr_comment) (reg_exp (codes "^<\\!--[\\s\\S]*?(?:-\\->|$)"))
      ∷ style_pattern (codes "lang-") (reg_exp (codes "^<\\?([\\s\\S]+?)(?:\\?>|$)"))
      ∷ style_pattern (codes "lang-") (reg_exp (codes "^<%([\\s\\S]+?)(?:%>|$)"))
      ∷ style_pattern (pr_punctuation) (reg_exp (codes "^(?:<[%?]|[%?]>)"))
      ∷ style_pattern (codes "lang-")
          (reg_exp_i (codes "^<xmp\\b[^>]*>([\\s\\S]+?)<\\/xmp\\b[^>]*>"))
      ∷ style_pattern (codes "lang-js")
          (reg_exp_i (codes "^<script\\b[^>]*>([\\s\\S]+?)<\\/script\\b[^>]*>"))
      ∷ style_pattern (codes "lang-css")
          (reg_exp_i (codes "^<style\\b[^>]*>([\\s\\S]+?)<\\/style\\b[^>]*>"))
      ∷ style_pattern (codes "lang-in.tag") (reg_exp_i (codes "^(<\\/?[a-z][^<>]*>)"))
      ∷ []);
  extensions =
      codes "default-markup"
      ∷ codes "htm"
      ∷ codes "html"
      ∷ codes "mxml"
      ∷ codes "xhtml"
      ∷ codes "xml"
      ∷ codes "xsl"
      ∷ [];
}

abbrev pub register_tag : Registration
register_tag = record {
  maker =
      simple
        (record {
          style = pr_plain;
          regexp = reg_exp (codes "^[\\s]+");
          shortcut = codes " " ++ 9 ∷ 13 ∷ 10 ∷ [];
        }
          ∷ record {
            style = pr_attrib_value;
            regexp = reg_exp (codes "^(?:\\\"[^\\\"]*\\\"?|\\'[^\\']*\\'?)");
            shortcut = codes "\"'";
          }
          ∷ [])
        (style_pattern (pr_tag) (reg_exp (codes "^^<\\/?[a-z](?:[\\w:-]*\\w)?|\\/?>$")))
        (style_pattern (pr_attrib_name) (reg_exp (codes "^(?!style\\b|on)[a-z](?:[\\w:-]*\\w)?"))
          ∷ style_pattern (codes "lang-uq.val")
              (reg_exp (codes "^=\\s*([^>\\'\\\"\\s]*(?:[^>\\'\\\"\\s\\/]|\\/(?=\\s)))"))
          ∷ style_pattern (pr_punctuation) (reg_exp (codes "^[=<>\\/]+"))
          ∷ style_pattern (codes "lang-js") (reg_exp_i (codes "^on\\w+\\s*=\\s*\\\"([^\\\"]+)\\\""))
          ∷ style_pattern (codes "lang-js") (reg_exp_i (codes "^on\\w+\\s*=\\s*\\'([^\\']+)\\'"))
          ∷ style_pattern (codes "lang-js") (reg_exp_i (codes "^on\\w+\\s*=\\s*([^\\\"\\'>\\s]+)"))
          ∷ style_pattern (codes "lang-css")
              (reg_exp_i (codes "^sty\\w+\\s*=\\s*\\\"([^\\\"]+)\\\""))
          ∷ style_pattern (codes "lang-css") (reg_exp_i (codes "^sty\\w+\\s*=\\s*\\'([^\\']+)\\'"))
          ∷ style_pattern (codes "lang-css")
              (reg_exp_i (codes "^sty\\w+\\s*=\\s*([^\\\"\\'>\\s]+)"))
          ∷ []);
  extensions = codes "in.tag" ∷ [];
}

abbrev pub register_value : Registration
register_value = record {
  maker = simple [] (style_pattern pr_attrib_value (reg_exp (codes "^[\\s\\S]+"))) [];
  extensions = codes "uq.val" ∷ [];
}
