-- ===== src/Prettify.antt =====
-- webapps/admin/js/prettify.js, the syntax highlighter of the console's pages.
pub mod Characters
pub mod Charset
pub mod Recombine
pub mod RegExp
pub mod Parts
pub mod Combine
pub mod Keywords
pub mod Simple
pub mod Preceders
pub mod Sources
pub mod Markup
pub mod Languages
pub mod Dom
pub mod Apply
pub mod Document
pub mod Page
pub mod Lexer
pub mod Html
pub mod Tabs
pub mod NoCode
pub mod Tags
