-- ===== src/Scrub.antt =====
-- internal/scrub/scrub.go: the redaction pass. Regex is the part of Go's `regexp` that the rules use,
-- Replace is ReplaceAllString, Rules has the rules and the pass.
pub mod Regex
pub mod Classes
pub mod Replace
pub mod Rules
