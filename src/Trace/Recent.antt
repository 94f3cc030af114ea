-- ===== src/Trace/Recent.antt =====
-- `TableOfRecentCompares` and `MemMemTable` of FuzzerTracePC.h. A table is the list of its
-- entries, as many as the template's `kSizeT`.
pub mod Laws
use pfuzzer.Base.{
  ℕ, zero, suc, ◌+◌, ◌%◌, leb, min, ◌==◌, not, Bool, if◌then◌else◌, List, [], Option, none, some,
  length, take, get_elem?, set,
}
use pfuzzer.Util.{simple_fast_hash}
use pfuzzer.Dictionary.{Word, word_set, max_word_size}

module _ {A : Type 0} where
  -- `TableOfRecentCompares::Insert`.
  unfoldable pub torc_insert : List (A × A) → ℕ → A → A → List (A × A)
  torc_insert table idx arg1 arg2 = set table (idx % length table) (arg1, arg2)

  -- `TableOfRecentCompares::Get`.
  unfoldable pub torc_get : List (A × A) → ℕ → Option (A × A)
  torc_get table i = get_elem? table (i % length table)

-- `MemMemTable::Add` on `size` bytes of an array.
unfoldable pub mmt_add : List Word → List ℕ → ℕ → Option (List Word)
unfolding simple_fast_hash word_set
mmt_add words bytes size =
    if leb size 2
    then some words
    else let n = min size max_word_size in
      elim (word_set bytes n) [
        | none ↦ none
        | some w ↦ some (set words (simple_fast_hash (take n bytes) 0 % length words) w)
      ]

-- The loop of `MemMemTable::Get`, from index `idx + i` on.
unfoldable pub mmt_find : ℕ → List Word → ℕ → ℕ → Option Word
mmt_find zero words idx i = some []
mmt_find (suc rounds) words idx i =
    let rest = mmt_find rounds words idx (i + 1) in
    elim (get_elem? words ((idx + i) % length words)) [
      | none ↦ none
      | some w ↦ if not (length w == 0) then some w else rest
    ]

unfoldable pub mmt_get : List Word → ℕ → Option Word
unfolding mmt_find
mmt_get words idx = mmt_find (length words) words idx 0
