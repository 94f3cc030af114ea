-- ===== src/CrossOver.antt =====
-- FuzzerCrossOver.cpp: `MutationDispatcher::CrossOver` copies parts of two inputs by turns.
pub mod Laws
use pfuzzer.Base.{
  ◌*◌, ◌==◌, ℕ, zero, suc, ◌+◌, ◌-◌, min, ltb, ◌||◌, ◌&&◌, not, Bool, true, false, if◌then◌else◌,
  List, [], length, none,
}
use pfuzzer.Base.Comp.{Comp, pure, lift, assert, minus, ◌>>=◌, ◌>>◌}
use pfuzzer.Base.Memory.{copy_bytes}
use pfuzzer.Random.{rand}

-- The variables of the loop: `Out`, `OutPos`, `Pos1`, `Pos2`, `CurrentlyUsingFirstData`.
pub record Cross : Type 0 where
  pub out : List ℕ
  pub out_pos : ℕ
  pub pos1 : ℕ
  pub pos2 : ℕ
  pub first : Bool

module _ (data1 : List ℕ) (size1 : ℕ) (data2 : List ℕ) (size2 max_out_size : ℕ) where
  -- One round: a part of the current input, if it is not used up; then the other input's turn.
  unfoldable pub cross_round : Cross → Comp ℕ Cross
  unfolding rand copy_bytes
  cross_round c =
      let in_pos = if c.first then c.pos1 else c.pos2 in
      let in_size = if c.first then size1 else size2 in
      if ltb in_pos in_size
      then (do
        out_size_left ← minus max_out_size c.out_pos
        in_size_left ← minus in_size in_pos
        r ← rand (min out_size_left in_size_left)
        let extra_size = r + 1
        out ← lift (copy_bytes c.out c.out_pos (if c.first then data1 else data2) in_pos extra_size)
        pure (record {
          out = out;
          out_pos = c.out_pos + extra_size;
          pos1 = if c.first then c.pos1 + extra_size else c.pos1;
          pos2 = if c.first then c.pos2 else c.pos2 + extra_size;
          first = not c.first;
        }))
      else pure (record c { first = not c.first })

  unfoldable pub cross_more : Cross → Bool
  cross_more c = ltb c.out_pos max_out_size && (ltb c.pos1 size1 || ltb c.pos2 size2)

  -- The loop, on fuel; it faults where the fuel runs out.
  unfoldable pub cross_loop : ℕ → Cross → Comp ℕ Cross
  unfolding cross_round cross_more
  cross_loop zero c = lift none
  cross_loop (suc fuel) c =
      let next = cross_round c >>= λ d. cross_loop fuel d in if cross_more c then next else pure c

-- The output array afterwards, and the number of bytes written.
unfoldable pub cross_over : List ℕ → ℕ → List ℕ → ℕ → List ℕ → ℕ → Comp ℕ (List ℕ × ℕ)
unfolding cross_loop rand
cross_over data1 size1 data2 size2 out max_out_size = do
  assert (not (size1 == 0) || not (size2 == 0))
  r ← rand max_out_size
  c ←
      cross_loop data1 size1 data2 size2 (r + 1) (2 * (size1 + size2) + 2)
        (record { out = out; out_pos = 0; pos1 = 0; pos2 = 0; first = true })
  pure (c.out, c.out_pos)
