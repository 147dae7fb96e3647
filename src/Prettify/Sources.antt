-- ===== src/Prettify/Sources.antt =====
-- `sourceDecorator`: the patterns of a language like C, by its options.
pub mod Shortcuts
pub mod Alternatives
use java_study_project.Base.{
  ◌+◌, Bool, true, false, ◌&&◌, Option, none, List, [], ◌∷◌, ◌++◌, if◌then◌else◌,
}
use java_study_project.Text.{Text, codes, eq_text}
use java_study_project.Text.Number.{is_space, skip_space}
use java_study_project.Prettify.RegExp.{RegExp, reg_exp, reg_exp_i}
use java_study_project.Prettify.Lexer.{Lexer, pr_plain}
use java_study_project.Prettify.Simple.{StylePattern, Engine, create_simple_lexer}
use java_study_project.Prettify.Preceders.{regexp_preceder_pattern, regex_literal}

abbrev pub pr_string : Text
pr_string = codes "str"

abbrev pub pr_keyword : Text
pr_keyword = codes "kwd"

abbrev pub pr_comment : Text
pr_comment = codes "com"

abbrev pub pr_type : Text
pr_type = codes "typ"

abbrev pub pr_literal : Text
pr_literal = codes "lit"

abbrev pub pr_punctuation : Text
pr_punctuation = codes "pun"

-- An option that is not given is `undefined`, which is falsy.
pub record Options : Type 0 where
  pub keywords : Text
  pub hash_comments : Bool
  pub c_style_comments : Bool
  pub multi_line_strings : Bool
  pub triple_quoted_strings : Bool
  pub regex_literals : Bool

-- White space at the end of a text goes.
unfoldable pub trim_end : Text → Text
trim_end [] = []
trim_end (c ∷ s) = let rest = trim_end s in if is_space c && eq_text rest [] then [] else c ∷ rest

-- `replace(/^\s+|\s+$/g, '')`.
abbrev pub trim : Text → Text
trim s = trim_end (skip_space s)

-- `replace(/\s+/g, '|')`; the test tells whether the character in front was white space.
unfoldable pub bar_spaces : Bool → Text → Text
bar_spaces in_space [] = []
bar_spaces in_space (c ∷ s) =
    let inside = bar_spaces true s in
    let outside = bar_spaces false s in
    if is_space c then (if in_space then inside else b'|' ∷ inside) else c ∷ outside

abbrev pub keyword_regexp : Text → RegExp
keyword_regexp keywords = reg_exp (codes "^(?:" ++ (bar_spaces false keywords ++ codes ")\\b"))

abbrev pub string_pattern : Options → StylePattern
string_pattern o =
    if o.triple_quoted_strings
    then record {
      style = pr_string;
      regexp = reg_exp (
          codes
            "^(?:\\'\\'\\'(?:[^\\'\\\\]|\\\\[\\s\\S]|\\'{1,2}(?=[^\\']))*(?:\\'\\'\\'|$)|\\\"\\\"\\\"(?:[^\\\"\\\\]|\\\\[\\s\\S]|\\\"{1,2}(?=[^\\\"]))*(?:\\\"\\\"\\\"|$)|\\'(?:[^\\\\\\']|\\\\[\\s\\S])*(?:\\'|$)|\\\"(?:[^\\\\\\\"]|\\\\[\\s\\S])*(?:\\\"|$))");
      shortcut = codes "'\"";
    }
    else if o.multi_line_strings
    then record {
      style = pr_string;
      regexp = reg_exp (
          codes
            "^(?:\\'(?:[^\\\\\\']|\\\\[\\s\\S])*(?:\\'|$)|\\\"(?:[^\\\\\\\"]|\\\\[\\s\\S])*(?:\\\"|$)|\\`(?:[^\\\\\\`]|\\\\[\\s\\S])*(?:\\`|$))");
      shortcut = codes "'\"`";
    }
    else record {
      style = pr_string;
      regexp = reg_exp (
          codes
            "^(?:\\'(?:[^\\\\\\'\\r\\n]|\\\\.)*(?:\\'|$)|\\\"(?:[^\\\\\\\"\\r\\n]|\\\\.)*(?:\\\"|$))");
      shortcut = codes "\"'";
    }

abbrev pub hash_patterns : Options → List StylePattern
hash_patterns o =
    if o.hash_comments
    then (if o.c_style_comments
        then record {
          style = pr_comment;
          regexp = reg_exp (codes "^#(?:[^\\r\\n\\/]|\\/(?!\\*)|\\/\\*[^\\r\\n]*?\\*\\/)*");
          shortcut = codes "#";
        }
        else record {
          style = pr_comment;
          regexp = reg_exp (codes "^#[^\\r\\n]*");
          shortcut = codes "#";
        })
      ∷ []
    else []

abbrev pub space_pattern : StylePattern
space_pattern = record {
  style = pr_plain;
  regexp = reg_exp (codes "^\\s+");
  shortcut = codes " " ++ 13 ∷ 10 ∷ 9 ∷ 0xa0 ∷ [];
}

-- `shortcutStylePatterns`.
unfoldable pub source_shortcuts : Options → List StylePattern
source_shortcuts o = string_pattern o ∷ (hash_patterns o ++ space_pattern ∷ [])

abbrev pub comment_patterns : Options → List StylePattern
comment_patterns o =
    if o.c_style_comments
    then record { style = pr_comment; regexp = reg_exp (codes "^\\/\\/[^\\r\\n]*"); shortcut = [] }
      ∷ record {
        style = pr_comment;
        regexp = reg_exp (codes "^\\/\\*[\\s\\S]*?(?:\\*\\/|$)");
        shortcut = [];
      }
      ∷ []
    else []

abbrev pub regex_patterns : Options → List StylePattern
regex_patterns o =
    if o.regex_literals
    then record {
      style = codes "lang-regex";
      regexp =
          reg_exp
            (codes "^" ++ (regexp_preceder_pattern ++ (codes "(" ++ (regex_literal ++ codes ")"))));
      shortcut = [];
    }
      ∷ []
    else []

abbrev pub keyword_patterns : Text → List StylePattern
keyword_patterns keywords =
    if eq_text keywords []
    then []
    else record { style = pr_keyword; regexp = keyword_regexp keywords; shortcut = [] } ∷ []

-- What stands in front of the patterns that every language has.
unfoldable pub source_patterns : Options → List StylePattern
unfolding regexp_preceder_pattern regex_literal trim_end bar_spaces
source_patterns o = comment_patterns o ++ (regex_patterns o ++ keyword_patterns (trim o.keywords))

abbrev pub number_source : Text
number_source =
    codes "^(?:"
    ++ (codes "0x[a-f0-9]+"
        ++ (codes "|(?:\\d(?:_\\d+)*\\d*(?:\\.\\d*)?|\\.\\d\\+)"
            ++ (codes "(?:e[+\\-]?\\d+)?" ++ (codes ")" ++ codes "[a-z]*"))))

-- The patterns that every language has.
unfoldable pub common_patterns : List StylePattern
common_patterns =
    record {
      style = pr_literal;
      regexp = reg_exp_i (codes "^@[a-z_$][a-z_$@0-9]*");
      shortcut = codes "@";
    }
    ∷ record {
      style = pr_type;
      regexp = reg_exp (codes "^@?[A-Z]+[a-z][A-Za-z_$@0-9]*");
      shortcut = [];
    }
    ∷ record { style = pr_plain; regexp = reg_exp_i (codes "^[a-z_$][a-z_$@0-9]*"); shortcut = [] }
    ∷ record { style = pr_literal; regexp = reg_exp_i number_source; shortcut = codes "0123456789" }
    ∷ record {
      style = pr_punctuation;
      regexp = reg_exp (codes "^.[^\\s\\w\\.$@\\'\\\"\\`\\/\\#]*");
      shortcut = [];
    }
    ∷ []

-- `fallthroughStylePatterns` has a first pattern: that of the literals, if no other stands in front.
abbrev pub decorator_with : Engine → List StylePattern → List StylePattern → Option Lexer
decorator_with engine shortcuts [] = none
decorator_with engine shortcuts (p ∷ ps) = create_simple_lexer engine shortcuts p ps

unfoldable pub source_decorator : Engine → Options → Option Lexer
unfolding source_shortcuts source_patterns common_patterns create_simple_lexer
source_decorator engine o =
    decorator_with engine (source_shortcuts o) (source_patterns o ++ common_patterns)
