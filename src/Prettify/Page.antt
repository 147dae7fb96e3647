-- ===== src/Prettify/Page.antt =====
-- `prettyPrint`: the walk through the elements of a page, in batches that a clock ends.
pub mod Batches
pub mod Ending
pub mod Interleaving
pub mod Nested
pub mod Extension
use java_study_project.Base.{
  ℕ, zero, suc, ◌+◌, Bool, true, false, not, ◌&&◌, ◌||◌, Option, none, some, List, [], ◌∷◌, ◌++◌,
  ltb, if◌then◌else◌, length, drop,
}
use java_study_project.Text.{Text, codes, eq_text}
use java_study_project.Prettify.Lexer.{Handlers}
use java_study_project.Prettify.Dom.{Attribute, is_raw_content, get_inner_html}
use java_study_project.Prettify.Apply.{apply_decorator}
use java_study_project.Prettify.Document.{
  Document, Visit, and_then, replaced, strip_newline, lang_extension, has_prettyprint, is_code_tag,
  visited, threw,
}

-- The state of the walk: the closure's `k`, how often `doWork` was called, and the page.
pub record Work (D : Type 0) : Type 0 where
  pub k : ℕ
  pub calls : ℕ
  pub page : D

-- A call of `doWork` returns or is left, with `k` and the page; then the walk waits for its next call, or
-- is over.
pub data Batch (D : Type 0) : Type 0 where
  worked : ℕ → D → Batch D
  failed : ℕ → D → Batch D

pub data Walk (D : Type 0) : Type 0 where
  waiting : Work D → Walk D
  done : Work D → Walk D
  stopped : Work D → Walk D

-- `clock.now() < endTime`; `none` is Infinity.
abbrev pub before_end : ℕ → Option ℕ → Bool
before_end now none = true
before_end now (some end_time) = ltb now end_time

-- Where the script runs: the handlers and the fuel that they get, the settings of the page, the browser,
-- and the clock, whose arguments are the call of `doWork` and the number of the reading in it.
pub record Browser (D E : Type 0) : Type 0 where
  pub handlers : Handlers
  pub fuel : ℕ
  pub tab_width : ℕ
  pub is_ie6 : Bool
  pub inner_html_works : Bool
  pub to_lower_case : Text → Text
  pub document : Document D E
  pub should_use_continuation : Bool
  pub clock : ℕ → ℕ → ℕ

module _ {D E : Type 0} (b : Browser D E) where
  abbrev pub code_elements : D → List E
  code_elements d =
      b.document.get_elements_by_tag_name (codes "pre") d
      ++ (b.document.get_elements_by_tag_name (codes "code") d
          ++ b.document.get_elements_by_tag_name (codes "xmp") d)

  -- The loop over the parents, on those that are left.
  unfoldable pub is_nested : List E → D → Bool
  is_nested [] d = false
  is_nested (p ∷ parents) d =
      is_code_tag (b.document.tag_name p d) && has_prettyprint (b.document.class_name p d)
      || is_nested parents d

  unfoldable pub copy_attributes : List Attribute → E → D → D
  copy_attributes [] pre d = d
  copy_attributes (a ∷ attributes) pre d = copy_attributes attributes pre (
      if a.specified
      then (if eq_text (b.to_lower_case a.name) (codes "class")
          then b.document.set_class_name pre a.value d
          else b.document.set_attribute pre a.name a.value d)
      else d)

  -- The loop over the line breaks, which starts with the last of them.
  unfoldable pub replace_line_breaks : List E → D → Visit D
  replace_line_breaks [] d = visited d
  replace_line_breaks (line_break ∷ line_breaks) d =
      and_then (replace_line_breaks line_breaks d) (λ later.
        let (text, made) = b.document.create_text_node (b'\r' ∷ []) later in
        replaced later (b.document.replace_child text line_break made))

  unfoldable pub line_breaks_to_returns : E → D → Visit D
  unfolding replace_line_breaks
  line_breaks_to_returns cs d =
      if b.is_ie6 && eq_text (b.document.tag_name cs d) (codes "PRE")
      then replace_line_breaks (b.document.descendants_by_tag_name cs (codes "br") d) d
      else visited d

  unfoldable pub replace_with_pre : E → Text → D → Visit D
  unfolding copy_attributes line_breaks_to_returns
  replace_with_pre cs new_content d =
      let (pre, made) = b.document.create_element (codes "PRE") d in
      let filled =
        b.document.set_inner_html pre new_content
          (copy_attributes (b.document.attributes cs made) pre made) in
      and_then (replaced filled (b.document.replace_child pre cs filled))
        (line_breaks_to_returns pre)

  unfoldable pub replace_with_pretty_printed_html : E → Text → D → Visit D
  unfolding replace_with_pre line_breaks_to_returns
  replace_with_pretty_printed_html cs [] d = visited d
  replace_with_pretty_printed_html cs (c ∷ s) d =
      if is_raw_content (b.document.tag_name cs d)
      then replace_with_pre cs (c ∷ s) d
      else line_breaks_to_returns cs (b.document.set_inner_html cs (c ∷ s) d)

  -- The content of an element, as it is given to `applyDecorator`.
  unfoldable pub content_of : E → D → Text
  unfolding get_inner_html strip_newline
  content_of cs d = strip_newline (
      get_inner_html b.to_lower_case b.inner_html_works (b.document.tag_name cs d)
        (b.document.inner_html cs d) (b.document.children cs d))

  unfoldable pub rewrite_element : E → D → Visit D
  unfolding content_of lang_extension apply_decorator replace_with_pretty_printed_html
  rewrite_element cs d =
      replace_with_pretty_printed_html cs
        (apply_decorator b.handlers b.fuel b.is_ie6 b.tab_width (content_of cs d)
          (lang_extension false (b.document.class_name cs d)))
        d

  -- The body of the loop in `doWork`.
  unfoldable pub visit : E → D → Visit D
  unfolding is_nested rewrite_element
  visit cs d =
      if has_prettyprint (b.document.class_name cs d)
        && not (is_nested (b.document.ancestors cs d) d)
      then rewrite_element cs d
      else visited d

  abbrev pub end_time : ℕ → Option ℕ
  end_time call = if b.should_use_continuation then some (b.clock call 0 + 250) else none

  -- The end takes a reading, if there is one.
  abbrev pub first_reading : ℕ
  first_reading = if b.should_use_continuation then 1 else 0

  abbrev pub next : Visit D → ℕ → (D → Batch D) → Batch D
  next (visited d) k go_on = go_on d
  next (threw d) k go_on = failed k d

  -- The loop, on the elements from `k` on.
  unfoldable pub work_loop : ℕ → Option ℕ → List E → ℕ → ℕ → D → Batch D
  unfolding visit
  work_loop call end [] k reading d = worked k d
  work_loop call end (cs ∷ elements) k reading d =
      if before_end (b.clock call reading) end
      then next (visit cs d) k
          (λ changed. work_loop call end elements (suc k) (suc reading) changed)
      else worked k d

  unfoldable pub do_work : List E → Work D → Batch D
  unfolding work_loop
  do_work elements w =
      work_loop w.calls (end_time w.calls) (drop w.k elements) w.k first_reading w.page

  abbrev pub next_work : ℕ → ℕ → D → Work D
  next_work calls k d = record { k = k; calls = suc calls; page = d }

  abbrev pub resume : ℕ → ℕ → Batch D → (Work D → Walk D) → Walk D
  resume count calls (failed k d) go_on = stopped (next_work calls k d)
  resume count calls (worked k d) go_on =
      if ltb k count then go_on (next_work calls k d) else done (next_work calls k d)

  -- The walk after a number of calls of `doWork`; that it is done is when `opt_whenDone` is called.
  unfoldable pub walk_on : ℕ → List E → Work D → Walk D
  unfolding do_work
  walk_on zero elements w = waiting w
  walk_on (suc batches) elements w =
      resume (length elements) w.calls (do_work elements w)
        (λ later. walk_on batches elements later)

  unfoldable pub pretty_print : ℕ → D → Walk D
  unfolding walk_on
  pretty_print batches d = walk_on batches (code_elements d) (record { k = 0; calls = 0; page = d })
