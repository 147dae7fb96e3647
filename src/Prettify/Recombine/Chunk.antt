-- ===== src/Prettify/Recombine/Chunk.antt =====
-- The replacements that `emitTextUpTo` makes in a chunk of escaped text.
use java_study_project.Base.{ℕ, Bool, false, ◌&&◌, ◌||◌, [], ◌∷◌, ◌++◌, ◌==◌, if◌then◌else◌}
use java_study_project.Text.{Text, codes}

-- `.replace(/([\r\n ]) /g, '$1&nbsp;')`.
unfoldable pub adjacent_spaces : Text → Text
adjacent_spaces [] = []
adjacent_spaces (c ∷ []) = c ∷ []
adjacent_spaces (c ∷ d ∷ s) =
    let hit = c ∷ codes "&nbsp;" ++ adjacent_spaces s in
    let miss = c ∷ adjacent_spaces (d ∷ s) in
    if (c == 0xd || c == 0xa || c == 0x20) && d == 0x20 then hit else miss

-- After such a character `^` matches in a pattern with the flag m.
abbrev pub is_line_end : ℕ → Bool
is_line_end c = c == 0xa || c == 0xd || c == 0x2028 || c == 0x2029

-- `.replace(/(^| ) /gm, '$1&nbsp;')`: the test says whether `^` matches here.
unfoldable pub start_or_spaces : Bool → Text → Text
start_or_spaces start [] = []
start_or_spaces start (c ∷ []) = if start && c == 0x20 then codes "&nbsp;" else c ∷ []
start_or_spaces start (c ∷ d ∷ s) =
    let at_start = codes "&nbsp;" ++ start_or_spaces false (d ∷ s) in
    let pair = c ∷ codes "&nbsp;" ++ start_or_spaces false s in
    let miss = c ∷ start_or_spaces (is_line_end c) (d ∷ s) in
    if start && c == 0x20 then at_start else if c == 0x20 && d == 0x20 then pair else miss

-- `/[ \r\n]$/.test(s)`.
unfoldable pub trailing_space : Text → Bool
trailing_space [] = false
trailing_space (c ∷ []) = c == 0x20 || c == 0xd || c == 0xa
trailing_space (c ∷ d ∷ s) = trailing_space (d ∷ s)

-- `.replace(/\r\n?|\n/g, line_break)`.
unfoldable pub break_lines : Text → Text → Text
break_lines line_break [] = []
break_lines line_break (c ∷ []) = if c == 0xd || c == 0xa then line_break else c ∷ []
break_lines line_break (c ∷ d ∷ s) =
    let both = line_break ++ break_lines line_break s in
    let one = line_break ++ break_lines line_break (d ∷ s) in
    let miss = c ∷ break_lines line_break (d ∷ s) in
    if c == 0xd && d == 0xa then both else if c == 0xd || c == 0xa then one else miss
