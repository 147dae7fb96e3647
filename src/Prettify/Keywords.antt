-- ===== src/Prettify/Keywords.antt =====
-- The keyword lists of the languages, words with a blank behind each.
use java_study_project.Base.{◌++◌}
use java_study_project.Text.{Text, codes}

unfoldable pub flow_control_keywords : Text
flow_control_keywords = codes "break continue do else for if return while "

unfoldable pub c_keywords : Text
c_keywords =
    flow_control_keywords
    ++ codes
        "auto case char const default double enum extern float goto int long register short signed sizeof static struct switch typedef union unsigned void volatile "

unfoldable pub common_keywords : Text
common_keywords =
    c_keywords
    ++ codes
        "catch class delete false import new operator private protected public this throw true try "

unfoldable pub cpp_keywords : Text
cpp_keywords =
    common_keywords
    ++ codes
        "alignof align_union asm axiom bool concept concept_map const_cast constexpr decltype dynamic_cast explicit export friend inline late_check mutable namespace nullptr reinterpret_cast static_assert static_cast template typeid typename typeof using virtual wchar_t where "

unfoldable pub java_keywords : Text
java_keywords =
    common_keywords
    ++ codes
        "boolean byte extends final finally implements import instanceof null native package strictfp super synchronized throws transient "

unfoldable pub csharp_keywords : Text
csharp_keywords =
    java_keywords
    ++ codes
        "as base by checked decimal delegate descending event fixed foreach from group implicit in interface internal into is lock object out override orderby params partial readonly ref sbyte sealed stackalloc string select uint ulong unchecked unsafe ushort var "

unfoldable pub jscript_keywords : Text
jscript_keywords =
    common_keywords
    ++ codes "debugger eval export function get null set undefined var with Infinity NaN "

unfoldable pub perl_keywords : Text
perl_keywords =
    codes
      "caller delete die do dump elsif eval exit foreach for goto if import last local my next no our print package redo require sub undef unless until use wantarray while BEGIN END "

unfoldable pub python_keywords : Text
python_keywords =
    flow_control_keywords
    ++ codes
        "and as assert class def del elif except exec finally from global import in is lambda nonlocal not or pass print raise try with yield False True None "

unfoldable pub ruby_keywords : Text
ruby_keywords =
    flow_control_keywords
    ++ codes
        "alias and begin case class def defined elsif end ensure false in module next nil not or redo rescue retry self super then true undef unless until when yield BEGIN END "

unfoldable pub sh_keywords : Text
sh_keywords =
    flow_control_keywords ++ codes "case done elif esac eval fi function in local set then until "

unfoldable pub all_keywords : Text
all_keywords =
    cpp_keywords
    ++ (csharp_keywords
        ++ (jscript_keywords
            ++ (perl_keywords ++ (python_keywords ++ (ruby_keywords ++ sh_keywords)))))
