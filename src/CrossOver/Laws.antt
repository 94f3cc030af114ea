-- ===== src/CrossOver/Laws.antt =====
-- `CrossOver` of FuzzerCrossOver.cpp ends, stays in its arrays, and interleaves prefixes of its
-- two inputs.
use pfuzzer.Base.{
  ℕ, zero, suc, ◌+◌, ◌-◌, ◌*◌, ◌≤◌, ◌<◌, ◌≡◌, refl, min, ltb, not, Bool, true, false, if◌then◌else◌,
  List, [], ◌∷◌, ◌++◌, length, take, drop, All, arith, ◌∙◌, ltb→lt, All-take, All-drop,
}
use pfuzzer.Base.Slices.{take-add}
use pfuzzer.Base.Comp.{
  Ensures, pure-Ensures, bind-Ensures, assert-Ensures, minus-Ensures, lift-Ensures, if-Ensures,
}
use pfuzzer.Base.Memory.{
  IsByte, overwrite, copy_bytes_lem, length-slice, length-overwrite, All-overwrite,
  take-overwrite_end,
}
use pfuzzer.Random.Laws.{rand-Ensures}
use pfuzzer.CrossOver.{Cross, cross_round, cross_more, cross_loop, cross_over}

-- The third list is made of the other two, each in its order.
pub data Interleaves : List ℕ → List ℕ → List ℕ → Type 0 where
  done : Interleaves [] [] []
  left : {x : ℕ} {xs ys zs : List ℕ} → Interleaves xs ys zs → Interleaves (x ∷ xs) ys (x ∷ zs)
  right : {y : ℕ} {xs ys zs : List ℕ} → Interleaves xs ys zs → Interleaves xs (y ∷ ys) (y ∷ zs)

only_left : (p : List ℕ) → Interleaves p [] p
only_left [] = done
only_left (x ∷ p) = left (only_left p)

only_right : (p : List ℕ) → Interleaves [] p p
only_right [] = done
only_right (x ∷ p) = right (only_right p)

extend_left :
    (p : List ℕ) {xs ys zs : List ℕ} → Interleaves xs ys zs → Interleaves (xs ++ p) ys (zs ++ p)
extend_left p done = only_left p
extend_left p (left i) = left (extend_left p i)
extend_left p (right i) = right (extend_left p i)

extend_right :
    (p : List ℕ) {xs ys zs : List ℕ} → Interleaves xs ys zs → Interleaves xs (ys ++ p) (zs ++ p)
extend_right p done = only_right p
extend_right p (left i) = left (extend_right p i)
extend_right p (right i) = right (extend_right p i)

module _ (data1 : List ℕ) (size1 : ℕ) (data2 : List ℕ) (size2 : ℕ) (mem : List ℕ) (max : ℕ)
    (fits1 : size1 ≤ length data1) (fits2 : size2 ≤ length data2) (room : max ≤ length mem)
    (bytes1 : All IsByte data1) (bytes2 : All IsByte data2) where
  record IsCrossed (c : Cross) : Type 0 where
    within1 : c.pos1 ≤ size1
    within2 : c.pos2 ≤ size2
    total : c.out_pos ≡ c.pos1 + c.pos2
    within : c.out_pos ≤ max
    same_length : length c.out ≡ length mem
    bytes : All IsByte c.out
    interleaved : Interleaves (take c.pos1 data1) (take c.pos2 data2) (take c.out_pos c.out)

  -- Falls with each round: twice the bytes left, and one more if the turn is at a used-up input.
  abbrev left_over : Cross → ℕ
  left_over c =
      2 * ((size1 - c.pos1) + (size2 - c.pos2))
      + (if ltb (if c.first then c.pos1 else c.pos2) (if c.first then size1 else size2)
          then 0
          else 1)

  module _ (c : Cross) (v : IsCrossed c) (n : ℕ) (pos : 0 < n) (fits : c.out_pos + n ≤ max) where
    abbrev taken : List ℕ → ℕ → List ℕ
    taken from beg = take n (drop beg from)

    copied :
        (from : List ℕ) (beg : ℕ)
        → beg + n ≤ length from
        → take (c.out_pos + n) (overwrite c.out c.out_pos (taken from beg))
          ≡ take c.out_pos c.out ++ taken from beg
    copied from beg h =
        take-overwrite_end c.out (taken from beg) c.out_pos _ (omega (arith, v.same_length))
          (omega (arith, length-slice from beg n h))

    advance1 :
        c.pos1 + n ≤ size1
        → IsCrossed (record {
          out = overwrite c.out c.out_pos (taken data1 c.pos1);
          out_pos = c.out_pos + n;
          pos1 = c.pos1 + n;
          pos2 = c.pos2;
          first = not c.first;
        })
    advance1 h = record {
      within1 = h;
      within2 = v.within2;
      total = omega (arith, v.total);
      within = fits;
      same_length =
          length-overwrite c.out (taken data1 c.pos1) c.out_pos
            (omega (arith, length-slice data1 c.pos1 n (omega arith), v.same_length))
          ∙ v.same_length;
      bytes =
          All-overwrite IsByte c.out (taken data1 c.pos1) c.out_pos v.bytes
            (All-take IsByte n (drop c.pos1 data1) (All-drop IsByte c.pos1 data1 bytes1));
      interleaved =
          rw (copied data1 c.pos1 (omega arith), take-add c.pos1 n data1)
            (extend_left (taken data1 c.pos1) v.interleaved);
    }

    advance2 :
        c.pos2 + n ≤ size2
        → IsCrossed (record {
          out = overwrite c.out c.out_pos (taken data2 c.pos2);
          out_pos = c.out_pos + n;
          pos1 = c.pos1;
          pos2 = c.pos2 + n;
          first = not c.first;
        })
    advance2 h = record {
      within1 = v.within1;
      within2 = h;
      total = omega (arith, v.total);
      within = fits;
      same_length =
          length-overwrite c.out (taken data2 c.pos2) c.out_pos
            (omega (arith, length-slice data2 c.pos2 n (omega arith), v.same_length))
          ∙ v.same_length;
      bytes =
          All-overwrite IsByte c.out (taken data2 c.pos2) c.out_pos v.bytes
            (All-take IsByte n (drop c.pos2 data2) (All-drop IsByte c.pos2 data2 bytes2));
      interleaved =
          rw (copied data2 c.pos2 (omega arith), take-add c.pos2 n data2)
            (extend_right (taken data2 c.pos2) v.interleaved);
    }

  abbrev Round : Cross → Cross → Type 0
  Round c d = IsCrossed d × (left_over d < left_over c)

  turned : (c : Cross) → IsCrossed c → IsCrossed (record c { first = not c.first })
  turned c v = record {
    within1 = v.within1;
    within2 = v.within2;
    total = v.total;
    within = v.within;
    same_length = v.same_length;
    bytes = v.bytes;
    interleaved = v.interleaved;
  }

  round1 :
      (out : List ℕ) (out_pos pos1 pos2 s : ℕ)
      → let c : Cross = record {
        out = out;
        out_pos = out_pos;
        pos1 = pos1;
        pos2 = pos2;
        first = true;
      } in
        IsCrossed c
        → cross_more data1 size1 data2 size2 max c ≡ true
        → Ensures (cross_round data1 size1 data2 size2 max c) s (λ d t. Round c d)
  unfolding cross_round cross_more
  round1 out out_pos pos1 pos2 s v more =
      if-Ensures (ltb pos1 size1)
        (λ h.
          let g : out_pos < max = ground arith in
          let p : pos1 < size1 = ltb→lt pos1 size1 h in
          minus-Ensures _ v.within (
            minus-Ensures _ v.within1 (
              bind-Ensures (rand-Ensures (min (max - out_pos) (size1 - pos1)) s) λ r t b.
                lift-Ensures _
                  (copy_bytes_lem out data1 out_pos pos1 (r + 1) (omega arith)
                    (omega (arith, v.same_length)))
                  (pure-Ensures _ (
                    advance1 _ v (r + 1) (omega arith) (omega arith) (omega arith),
                    ground arith,
                  )))))
        λ h. pure-Ensures _ (turned _ v, ground arith)

  round2 :
      (out : List ℕ) (out_pos pos1 pos2 s : ℕ)
      → let c : Cross = record {
        out = out;
        out_pos = out_pos;
        pos1 = pos1;
        pos2 = pos2;
        first = false;
      } in
        IsCrossed c
        → cross_more data1 size1 data2 size2 max c ≡ true
        → Ensures (cross_round data1 size1 data2 size2 max c) s (λ d t. Round c d)
  unfolding cross_round cross_more
  round2 out out_pos pos1 pos2 s v more =
      if-Ensures (ltb pos2 size2)
        (λ h.
          let g : out_pos < max = ground arith in
          let p : pos2 < size2 = ltb→lt pos2 size2 h in
          minus-Ensures _ v.within (
            minus-Ensures _ v.within2 (
              bind-Ensures (rand-Ensures (min (max - out_pos) (size2 - pos2)) s) λ r t b.
                lift-Ensures _
                  (copy_bytes_lem out data2 out_pos pos2 (r + 1) (omega arith)
                    (omega (arith, v.same_length)))
                  (pure-Ensures _ (
                    advance2 _ v (r + 1) (omega arith) (omega arith) (omega arith),
                    ground arith,
                  )))))
        λ h. pure-Ensures _ (turned _ v, ground arith)

  round :
      (c : Cross) (s : ℕ)
      → IsCrossed c
      → cross_more data1 size1 data2 size2 max c ≡ true
      → Ensures (cross_round data1 size1 data2 size2 max c) s (λ d t. Round c d)
  round c s v more = by_turn c.first c.out c.out_pos c.pos1 c.pos2 s v more
    where
      by_turn :
          (b : Bool) (out : List ℕ) (out_pos pos1 pos2 s : ℕ)
          → let c : Cross = record {
            out = out;
            out_pos = out_pos;
            pos1 = pos1;
            pos2 = pos2;
            first = b;
          } in
            IsCrossed c
            → cross_more data1 size1 data2 size2 max c ≡ true
            → Ensures (cross_round data1 size1 data2 size2 max c) s (λ d t. Round c d)
      by_turn true = round1
      by_turn false = round2

  -- The loop stops where the output is full, or both inputs are used up.
  ended :
      (c : Cross)
      → IsCrossed c
      → cross_more data1 size1 data2 size2 max c ≡ false
      → c.out_pos ≡ min max (size1 + size2)
  unfolding cross_more
  ended c v over = ground (arith, v.total, v.within1, v.within2, v.within)

  loop-Ensures :
      (fuel : ℕ) (c : Cross) (s : ℕ)
      → left_over c < fuel
      → IsCrossed c
      → Ensures
          (cross_loop data1 size1 data2 size2 max fuel c)
          s
          (λ d t. IsCrossed d × (d.out_pos ≡ min max (size1 + size2)))
  unfolding cross_loop
  loop-Ensures zero c s h v = absurd (omega arith)
  loop-Ensures (suc fuel) c s h v =
      if-Ensures (cross_more data1 size1 data2 size2 max c)
        (λ more.
          bind-Ensures (round c s v more) λ d t (w, less). loop-Ensures fuel d t (omega arith) w)
        λ over. pure-Ensures _ (v, ended c v over)

-- An array of `size` bytes at least, to be read.
pub record IsReadable (xs : List ℕ) (size : ℕ) : Type 0 where
  pub room : size ≤ length xs
  pub bytes : All IsByte xs

-- What a crossover leaves: `n` bytes that interleave a prefix of each input, where `n` is the
-- number asked for or all there is.
pub record IsCrossOver (data1 : List ℕ) (size1 : ℕ) (data2 : List ℕ) (size2 : ℕ) (mem : List ℕ)
    (max : ℕ) (out : List ℕ) (n : ℕ) : Type 0 where
  pub asked : ℕ
  pub asked_pos : 0 < asked
  pub asked_le : asked ≤ max
  pub length_eq : n ≡ min asked (size1 + size2)
  pub used1 : ℕ
  pub used2 : ℕ
  pub used1_le : used1 ≤ size1
  pub used2_le : used2 ≤ size2
  pub interleaved : Interleaves (take used1 data1) (take used2 data2) (take n out)
  pub same_length : length out ≡ length mem
  pub bytes : All IsByte out

-- `CrossOver` of two inputs in their arrays, one of them not empty, into an array with room for
-- at least one byte never faults and ends. What it writes interleaves a prefix of each input, and
-- is as long as the number of bytes drawn, or as both inputs where this is less.
pub cross_over-Ensures :
    (data1 : List ℕ) (size1 : ℕ) (data2 : List ℕ) (size2 : ℕ) (mem : List ℕ) (max s : ℕ)
    → IsReadable data1 size1
    → IsReadable data2 size2
    → IsReadable mem max
    → 0 < max
    → 0 < size1 + size2
    → Ensures
        (cross_over data1 size1 data2 size2 mem max)
        s
        (λ r t. IsCrossOver data1 size1 data2 size2 mem max r.0 r.1)
unfolding cross_over
cross_over-Ensures data1 size1 data2 size2 mem max s v1 v2 v pos some_bytes =
    assert-Ensures (ground arith) (
      bind-Ensures (rand-Ensures max s) λ r t b.
        bind-Ensures
          (loop-Ensures data1 size1 data2 size2 mem (r + 1) v1.room v2.room (omega (arith, v.room))
            v1.bytes v2.bytes (2 * (size1 + size2) + 2) (start) t (ground arith)
            (record {
              within1 = omega arith;
              within2 = omega arith;
              total = refl;
              within = omega arith;
              same_length = refl;
              bytes = v.bytes;
              interleaved = done;
            }))
          λ c u (w, e). pure-Ensures _ (record {
            asked = r + 1;
            asked_pos = omega arith;
            asked_le = omega arith;
            length_eq = e;
            used1 = c.pos1;
            used2 = c.pos2;
            used1_le = w.within1;
            used2_le = w.within2;
            interleaved = w.interleaved;
            same_length = w.same_length;
            bytes = w.bytes;
          }))
  where
    start : Cross
    start = record { out = mem; out_pos = 0; pos1 = 0; pos2 = 0; first = true }
