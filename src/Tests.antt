-- ===== src/Tests.antt =====
-- The theorems at concrete inputs.
mod Mutators
mod Dispatcher
mod Tools
mod Corpus
mod Merging
mod Flow
mod Texts
mod Seeds
