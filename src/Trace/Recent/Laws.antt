-- ===== src/Trace/Recent/Laws.antt =====
-- What the tables of recent comparisons in FuzzerTracePC.h return.
use pfuzzer.Base.{
  ℕ, zero, suc, ◌+◌, ◌%◌, ◌≤◌, ◌<◌, ◌≡◌, refl, ◌⊎◌, inl, inr, ◌==◌, not, Bool, true, false,
  if◌then◌else◌, List, [], ◌∷◌, some, length, get_elem?, tests, arith, ap, ◌∙◌, get_elem?_lt,
  get_elem?-set_self, length-set, subst,
}
use pfuzzer.Trace.Recent.{torc_insert, torc_get, mmt_find, mmt_get}
use pfuzzer.Dictionary.{Word}

-- What was inserted into a table of recent comparisons that has places is found under every index
-- with the same remainder.
pub torc_get-torc_insert :
    {A : Type 0} (table : List (A × A)) (i j : ℕ) (a b : A)
    → 0 < length table
    → i % length table ≡ j % length table
    → torc_get (torc_insert table j a b) i ≡ some (a, b)
unfolding torc_get torc_insert
torc_get-torc_insert table i j a b h e =
    rw (length-set table (j % length table) (a, b), e)
      (get_elem?-set_self table (j % length table) (a, b) (omega arith))

pub torc_get_lem :
    {A : Type 0} (table : List (A × A)) (i : ℕ)
    → 0 < length table
    → (p : A × A) × (torc_get table i ≡ some p) × (get_elem? table (i % length table) ≡ some p)
unfolding torc_get
torc_get_lem table i h =
    let (p, e) = get_elem?_lt table (i % length table) (omega arith) in (p, e, e)

empty_word : (w : Word) → length w ≡ 0 → w ≡ []
empty_word [] h = refl
empty_word (x ∷ w) h = absurd (omega arith)

-- The first word from index `idx + i` on, round the end of the table, that is not empty.
pub data IsFirst (words : List Word) (idx i rounds : ℕ) (w : Word) : Type 0 where
  all_empty :
      w ≡ []
      → ((j : ℕ) → i ≤ j → j < i + rounds → get_elem? words ((idx + j) % length words) ≡ some [])
      → IsFirst words idx i rounds w
  at :
      (k : ℕ)
      → i ≤ k
      → k < i + rounds
      → 0 < length w
      → get_elem? words ((idx + k) % length words) ≡ some w
      → ((j : ℕ) → i ≤ j → j < k → get_elem? words ((idx + j) % length words) ≡ some [])
      → IsFirst words idx i rounds w

module _ (words : List Word) (idx : ℕ) (pos : 0 < length words) where
  abbrev EmptyAt : ℕ → Type 0
  EmptyAt j = get_elem? words ((idx + j) % length words) ≡ some []

  before : (i j : ℕ) → EmptyAt i → (i + 1 ≤ j → EmptyAt j) → i ≤ j → EmptyAt j
  before i j e f h = elim (nat_cases i j h) [
    | inl same ↦ subst EmptyAt same e
    | inr later ↦ f later
  ]
    where
      nat_cases : (i j : ℕ) → i ≤ j → (i ≡ j) ⊎ (i + 1 ≤ j)
      nat_cases i j h = omega arith

  extend :
      (i rounds : ℕ) (w : Word)
      → EmptyAt i
      → IsFirst words idx (i + 1) rounds w
      → IsFirst words idx i (suc rounds) w
  extend i rounds w e (all_empty n f) =
      all_empty n (λ j h g. before i j e (λ l. f j l (omega arith)) h)
  extend i rounds w e (at k h g p q f) =
      at k (omega arith) (omega arith) p q (λ j h g. before i j e (λ l. f j l g) h)

  mmt_find_lem :
      (rounds i : ℕ)
      → (w : Word) × (mmt_find rounds words idx i ≡ some w) × IsFirst words idx i rounds w
  unfolding mmt_find
  mmt_find_lem zero i = ([], refl, all_empty refl (λ j h g. absurd (omega arith)))
  mmt_find_lem (suc rounds) i =
      let (w, e) = get_elem?_lt words ((idx + i) % length words) (omega arith) in
      rw (e, mmt_find) (chosen (length w == 0) w refl e (mmt_find_lem rounds (i + 1)))
    where
      chosen :
          (b : Bool) (w : Word)
          → (length w == 0) ≡ b
          → get_elem? words ((idx + i) % length words) ≡ some w
          → ((v : Word) × (mmt_find rounds words idx (i + 1) ≡ some v)
              × IsFirst words idx (i + 1) rounds v)
          → (v : Word) × ((if not b then some w else mmt_find rounds words idx (i + 1)) ≡ some v)
            × IsFirst words idx i (suc rounds) v
      chosen true w h e (v, g, f) =
          (v, g, extend i rounds v (e ∙ ap some (empty_word w (omega (tests, h)))) f)
      chosen false w h e r = (
        w,
        refl,
        at i (omega arith) (omega arith) (omega (tests, h)) e (λ j h g. absurd (omega arith)),
      )

  -- `MemMemTable::Get`, on a table that has places, returns the first word from the index on,
  -- round the end of the table, that is not empty, or the empty word if all are.
  pub mmt_get_lem : (w : Word) × (mmt_get words idx ≡ some w) × IsFirst words idx 0 (length words) w
  unfolding mmt_get
  mmt_get_lem = mmt_find_lem (length words) 0
