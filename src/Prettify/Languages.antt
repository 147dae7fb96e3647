-- ===== src/Prettify/Languages.antt =====
-- The handlers that the script registers, and their extensions.
pub mod Registered
pub mod Lawful
pub mod Graded
pub mod Loaded
pub mod Ranks
use java_study_project.Base.{true, false, Option, none, some, List, [], ◌∷◌}
use java_study_project.Text.{Text, codes}
use java_study_project.Prettify.RegExp.{reg_exp}
use java_study_project.Prettify.Keywords.{
  cpp_keywords, csharp_keywords, java_keywords, sh_keywords, python_keywords, perl_keywords,
  ruby_keywords, jscript_keywords,
}
use java_study_project.Prettify.Lexer.{Lexer, Handlers, register_lang_handler}
use java_study_project.Prettify.Simple.{Engine, create_simple_lexer}
use java_study_project.Prettify.Sources.{source_decorator, pr_string}
use java_study_project.Prettify.Markup.{
  style_pattern, make, Registration, register_default_code, register_markup, register_tag,
  register_value, decorator, simple,
}

abbrev pub register_cpp : Registration
register_cpp = record {
  maker = decorator (record {
    keywords = cpp_keywords;
    hash_comments = true;
    c_style_comments = true;
    multi_line_strings = false;
    triple_quoted_strings = false;
    regex_literals = false;
  });
  extensions = codes "c" ∷ codes "cc" ∷ codes "cpp" ∷ codes "cxx" ∷ codes "cyc" ∷ codes "m" ∷ [];
}

abbrev pub register_json : Registration
register_json = record {
  maker = decorator (record {
    keywords = codes "null true false";
    hash_comments = false;
    c_style_comments = false;
    multi_line_strings = false;
    triple_quoted_strings = false;
    regex_literals = false;
  });
  extensions = codes "json" ∷ [];
}

abbrev pub register_csharp : Registration
register_csharp = record {
  maker = decorator (record {
    keywords = csharp_keywords;
    hash_comments = true;
    c_style_comments = true;
    multi_line_strings = false;
    triple_quoted_strings = false;
    regex_literals = false;
  });
  extensions = codes "cs" ∷ [];
}

abbrev pub register_java : Registration
register_java = record {
  maker = decorator (record {
    keywords = java_keywords;
    hash_comments = false;
    c_style_comments = true;
    multi_line_strings = false;
    triple_quoted_strings = false;
    regex_literals = false;
  });
  extensions = codes "java" ∷ [];
}

abbrev pub register_shell : Registration
register_shell = record {
  maker = decorator (record {
    keywords = sh_keywords;
    hash_comments = true;
    c_style_comments = false;
    multi_line_strings = true;
    triple_quoted_strings = false;
    regex_literals = false;
  });
  extensions = codes "bsh" ∷ codes "csh" ∷ codes "sh" ∷ [];
}

abbrev pub register_python : Registration
register_python = record {
  maker = decorator (record {
    keywords = python_keywords;
    hash_comments = true;
    c_style_comments = false;
    multi_line_strings = true;
    triple_quoted_strings = true;
    regex_literals = false;
  });
  extensions = codes "cv" ∷ codes "py" ∷ [];
}

abbrev pub register_perl : Registration
register_perl = record {
  maker = decorator (record {
    keywords = perl_keywords;
    hash_comments = true;
    c_style_comments = false;
    multi_line_strings = true;
    triple_quoted_strings = false;
    regex_literals = true;
  });
  extensions = codes "perl" ∷ codes "pl" ∷ codes "pm" ∷ [];
}

abbrev pub register_ruby : Registration
register_ruby = record {
  maker = decorator (record {
    keywords = ruby_keywords;
    hash_comments = true;
    c_style_comments = false;
    multi_line_strings = true;
    triple_quoted_strings = false;
    regex_literals = true;
  });
  extensions = codes "rb" ∷ [];
}

abbrev pub register_javascript : Registration
register_javascript = record {
  maker = decorator (record {
    keywords = jscript_keywords;
    hash_comments = false;
    c_style_comments = true;
    multi_line_strings = false;
    triple_quoted_strings = false;
    regex_literals = true;
  });
  extensions = codes "js" ∷ [];
}

abbrev pub register_regex : Registration
register_regex = record {
  maker = simple [] (style_pattern pr_string (reg_exp (codes "^[\\s\\S]+"))) [];
  extensions = codes "regex" ∷ [];
}

-- In the order of the script.
abbrev pub registrations : List Registration
registrations =
    register_default_code ∷ register_markup ∷ register_tag ∷ register_value ∷ register_cpp
    ∷ register_json ∷ register_csharp ∷ register_java ∷ register_shell ∷ register_python
    ∷ register_perl ∷ register_ruby ∷ register_javascript ∷ register_regex ∷ []

abbrev pub register_made : Option Lexer → List Text → Handlers → Option Handlers
register_made none extensions hs = none
register_made (some lexer) extensions hs = some (register_lang_handler lexer extensions hs)

abbrev pub then_register : Engine → List Registration → Option Handlers → Option Handlers
then_register engine rs none = none
then_register engine [] (some hs) = some hs
then_register engine (r ∷ rs) (some hs) =
    then_register engine rs (register_made (make engine r.maker) r.extensions hs)

-- `langHandlerRegistry` when the script was loaded; `none` where a call throws.
unfoldable pub registry : Engine → Option Handlers
unfolding source_decorator create_simple_lexer register_lang_handler
registry engine = then_register engine registrations (some [])
