-- ===== src/Tests.antt =====
-- Runs of the code at concrete inputs.
mod Html
mod Tabs
mod Tags
mod Charset
mod Recombine
mod Lexer
mod Css
mod TableSort
mod Clicks
mod Events
mod Combine
mod Languages
mod Dom
mod Apply
mod Page
mod Actions
mod Making
mod Script
mod Loading
mod Sorting
