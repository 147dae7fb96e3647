-- ===== src/Lib.antt =====
-- The scripts of the web console, JavaStudyProject/webapps/admin/js.
--
-- The console's pages load prettify.js, which colours the source text in the `pre` and `code` elements
-- of a page; standardista-table-sorting.js, which sorts a table when a heading is clicked, with css.js
-- for the classes of its rows; and common.js for events.
--
-- Text is a JavaScript string as the list of its UTF-16 code units, with the methods of `String` that
-- the scripts call: `indexOf` (index_of, index_of_from), `substring`, `replace` with a character or a
-- literal (Text, Text.Replace), `parseInt` and `fromCharCode` (Text.Number), `split` and `join`
-- (Text.Split). An index of -1 is `none`, and so is NaN.
--
-- Prettify models prettify.js.
--   Prettify.Characters, Prettify.Charset: `decodeEscape` and `encodeEscape`, and `caseFoldCharset`, of
--     `combinePrefixPatterns`.
--   Prettify.Parts, Prettify.Combine: `allowAnywhereFoldCaseAndRenumberGroups` and the whole of
--     `combinePrefixPatterns`.
--     The expression that cuts a pattern in parts is the function pattern_parts; `capturedGroups` is the
--     list of the numbers that are set in it, and an exception is `none`.
--   Prettify.RegExp, Prettify.Simple: a regular expression is its source and flags; what it matches is
--     the engine's (Engine), and `createSimpleLexer` makes a Lexer of a call's patterns with it.
--   Prettify.Keywords, Prettify.Preceders, Prettify.Sources: the keyword lists, the pattern of what may
--     stand before a regular expression, and `sourceDecorator` with its options.
--   Prettify.Markup, Prettify.Languages: the calls of `registerLangHandler`, in their order.
--   Prettify.Lexer: `createSimpleLexer` (choose_style, classify, decorate), `appendDecorations`, and
--     the registry `langHandlerRegistry` (register_lang_handler, lang_handler_for_extension). A compiled
--     regular expression is a function: a pattern's match of a token, and the tokens of a source. What
--     is relied on of them is in Prettify.Lexer.Sound: the tokens are the source cut in pieces, and
--     group 1 of a match is a part of the token. The calls of `decorate` for embedded pieces of source
--     run on fuel; it is enough if every handler either passes on less than a whole token or passes it
--     to a handler of a lower rank (IsGraded). Prettify.Languages.Lawful ranks the registered handlers:
--     those that hand a whole tag or expression on stand above the others, and what the browser's
--     expressions must keep for that is IsLawful.
--   Prettify.Tags: `extractTags`. `pr_chunkPattern` is the function chunks; a loop that goes on behind
--     the end of a section is a count of the chunks to be passed over.
--   Prettify.NoCode: `isNoCodeTag`, its two expressions as functions.
--   Prettify.Dom: `normalizedHtml` and `getInnerHtml` over nodes by their types; `toLowerCase`,
--     `innerHTML` and the test of `PR_innerHtmlWorks` are arguments.
--   Prettify.Apply: `applyDecorator` and `prettyPrintOne`; a caught exception leaves the html.
--   Prettify.Document, Prettify.Page: `prettyPrint`. The document is a record of what the script calls on
--     it (Document), the clock a function of the call of `doWork` and the reading in it, and a walk waits
--     between two calls, is done, or is stopped by a TypeError. walk_on makes as many calls as it is
--     given: one more than there are elements is enough if the clock lets each batch visit one. In
--     Prettify.Page.Interleaving other scripts change the page between the calls.
--   Prettify.Html: `attribToHtml`, `textToHtml`, `htmlToText`. The loop over numeric entities runs on
--     fuel, one more than the length of the text.
--   Prettify.Tabs: `makeTabExpander`; the closure's `charInLine` is an argument and part of the result.
--     The tab width is not 0, for which the script computes with NaN.
--   Prettify.Recombine: `recombineTagsAndDecorations`. A list of alternating positions and values is a
--     list of marks. Its four regular expressions are functions (Prettify.Recombine.Chunk). What is
--     pushed on `html` is a list of pieces, and a chunk keeps beside its html the text it was made
--     from, which the script does not keep. Prettify.Recombine.Reading reads the pieces as a reader of the page would, and
--     Prettify.Recombine.Displayed reads a chunk's html as a browser does.
-- Css models css.js; an element is its `className`, and no element is `none`. The class that
-- `elementHasClass` puts in a pattern is a word, without characters that are special there.
-- TableSort models standardista-table-sorting.js.
--   TableSort.Inner: `getInnerText` with the attribute in which the text is kept.
--   TableSort.Keys: `sortCaseInsensitive`, `sortDate`, `sortIP`, `makeStandardIPAddress`; `toLowerCase`
--     is a parameter.
--   TableSort.Kinds: `determineSortFunction`, its patterns as functions.
--   TableSort.Table: `headingClicked`, `moveRows`, `doStripe`, `sortCurrency`, `sortNumeric`. A row is
--     its identity, a table the rows of its body in order with the class of each and the arrows of its
--     heading, and the sorter's variables are a record. `parseFloat`, the difference of two numbers and
--     `Array.sort` are parameters; a TypeError ends a click as `threw`, with the state at that point.
--     TableSort.InOrder says when rows stand in order, without the comparators.
--   TableSort.Making: `init`, `run` and `makeSortable`. The contents of a heading's cell are a list that
--     shrinks while it is walked through; the making of a link and an arrow is a parameter.
--   TableSort.Loading: `standardistaTableSortingInit`. The first heading of the page is given as a cell in
--     the last row of a table's head, or is not there, and its first child by what kind of node it is.
-- Events models common.js: `addEvent` and `removeEvent`, where the page is its guid counter, the guids of
-- the handlers, the tables of handlers by element and kind of event, and the `on` properties;
-- Events.Dispatch: `handleEvent`, `fixEvent`, `createElement` and `getEventTarget`, where what a handler
-- does to the world is a parameter, and so are the keys that `for in` goes through;
-- Events.Action: `confirmAction`, with the replacement texts of `replace`.
--
-- Not modelled: what the regular expressions of the languages match, which the browser decides; and
-- PlotKit and MochiKit, which are copies of other projects' libraries. The console's pages, which call
-- these scripts, and the Java programs beside it hold no logic of the scripts.
pub mod Base
pub mod Text
pub mod Prettify
pub mod Css
pub mod TableSort
pub mod Events
pub mod Tests
