-- ===== src/Mutate/Compares/Laws.antt =====
-- An entry made from a comparison in FuzzerMutate.cpp: its word is the other side of the
-- comparison, and a hint is a place where this side occurs in the input.
use pfuzzer.Base.{
  ℕ, zero, suc, ◌+◌, ◌^◌, ◌≤◌, ◌<◌, ◌≡◌, refl, ◌⊎◌, inl, inr, ltb, ◌==◌, Bool, true, false,
  if◌then◌else◌, List, [], Option, none, some, length, take, drop, All, arith, ap, sym, ◌∙◌, subst,
  le→leb, ltb→lt, length-take, length-drop, All-take, get_elem?_lt, All-get_elem?, ==_false→ne,
  ==→eq, ltb_false→le, Bool-cases, Option-cases,
}
use pfuzzer.Base.Slices.{drop-drop}
use pfuzzer.Base.Comp.{Ensures, pure, ◌>>=◌, pure-Ensures, bind-Ensures, lift-Ensures, if-Ensures}
use pfuzzer.Base.Memory.{IsByte}
use pfuzzer.Base.Bytes.{
  starts_with, search_memory, search_memory-occurs, search_memory-le, search_memory-none,
}
use pfuzzer.Random.Laws.{rand-Ensures, rand_bool-Ensures}
use pfuzzer.Dictionary.{Entry, word_set, entry_of, entry_at, no_hint}
use pfuzzer.Dictionary.Laws.{IsEntry}
use pfuzzer.Mutate.Compares.{
  max_num_positions, positions, entry_from_argument, choose, plain_entry, make_entry,
}

-- `p` is a place in the input where `existing` occurs.
abbrev pub OccursAt : List ℕ → List ℕ → ℕ → Type 0
OccursAt input existing p = (p ≤ length input) × (starts_with (drop p input) existing ≡ true)

-- There is no place in the input where `existing` occurs.
abbrev pub IsAbsent : List ℕ → List ℕ → Type 0
IsAbsent input existing =
    (p : ℕ) → (length input ≤ p) ⊎ (starts_with (drop p input) existing ≡ false)

module _ (mem : List ℕ) (size : ℕ) (existing : List ℕ) where
  found-OccursAt :
      (cur k : ℕ)
      → cur ≤ length (take size mem)
      → search_memory (drop cur (take size mem)) existing ≡ some k
      → OccursAt (take size mem) existing (cur + k)
  found-OccursAt cur k h e = (
    omega (arith, search_memory-le _ existing k e, length-drop cur (take size mem)),
    ap (λ l. starts_with l existing) (sym (drop-drop k cur (take size mem)))
        ∙ search_memory-occurs _ existing k e,
  )

  pub positions-OccursAt :
      (rounds cur : ℕ)
      → size ≤ length mem
      → All (OccursAt (take size mem) existing) (positions rounds mem size existing cur)
  unfolding positions
  positions-OccursAt zero cur h = tt
  positions-OccursAt (suc rounds) cur h = tested (ltb cur size) _ λ e.
      searched (search_memory (drop cur (take size mem)) existing) _ λ k found. (
        found-OccursAt cur k (omega (arith, length-take size mem, ltb→lt cur size e)) found,
        positions-OccursAt rounds (cur + k + 1) h,
      )
    where
      tested :
          (b : Bool) (xs : List ℕ)
          → (b ≡ true → All (OccursAt (take size mem) existing) xs)
          → All (OccursAt (take size mem) existing) (if b then xs else [])
      tested true xs f = f refl
      tested false xs f = tt

      searched :
          (o : Option ℕ) (f : ℕ → List ℕ)
          → ((k : ℕ) → o ≡ some k → All (OccursAt (take size mem) existing) (f k))
          → All (OccursAt (take size mem) existing) (elim o [ none ↦ [] | some k ↦ f k ])
      searched none f g = tt
      searched (some k) f g = g k refl

first_position :
    (rounds : ℕ) (mem : List ℕ) (size : ℕ) (existing : List ℕ) (cur k : ℕ)
    → ltb cur size ≡ true
    → search_memory (drop cur (take size mem)) existing ≡ some k
    → 0 < length (positions (suc rounds) mem size existing cur)
unfolding positions
first_position rounds mem size existing cur k e found = rw (e, found) (omega arith)

-- Where no position is found, there is none.
no_positions-IsAbsent :
    (mem : List ℕ) (size : ℕ) (existing : List ℕ)
    → (length (positions max_num_positions mem size existing 0) == 0) ≡ true
    → IsAbsent (take size mem) existing
no_positions-IsAbsent mem size existing h p = elim (Bool-cases (ltb 0 size)) [
  | inr e ↦ inl (omega (arith, ltb_false→le 0 size e, length-take size mem))
  | inl e ↦ elim (Option-cases (search_memory (take size mem) existing)) [
    | inl none_found ↦ inr (search_memory-none (take size mem) existing p none_found)
    | inr (k, found) ↦
        let some_found = first_position 7 mem size existing 0 k e found in
        absurd (omega (arith, ==→eq _ _ h, some_found))
  ]
]

-- The entry's hint is a place where one side of the comparison occurs in the input, and its word the
-- mutation of the other side; or neither side occurs, there is no hint, and the word is the mutation
-- of either side.
pub data IsMatch (arg1 arg2 mutation1 mutation2 : List ℕ) (n : ℕ) (input : List ℕ) (e : Entry)
    : Type 0 where
  first :
      OccursAt input (take n arg1) e.position_hint
      → e.word ≡ take n mutation2
      → IsMatch arg1 arg2 mutation1 mutation2 n input e
  second :
      OccursAt input (take n arg2) e.position_hint
      → e.word ≡ take n mutation1
      → IsMatch arg1 arg2 mutation1 mutation2 n input e
  neither :
      IsAbsent input (take n arg1)
      → IsAbsent input (take n arg2)
      → e.position_hint ≡ no_hint
      → (e.word ≡ take n mutation1) ⊎ (e.word ≡ take n mutation2)
      → IsMatch arg1 arg2 mutation1 mutation2 n input e

module _ {n : ℕ} (n_le : n ≤ 64) (mem : List ℕ) (size : ℕ) (room : size ≤ length mem)
    (wide : length mem < 2 ^ 63) where
  -- A side of the comparison that can be a word.
  abbrev IsSide : List ℕ → Type 0
  IsSide xs = (n ≤ length xs) × All IsByte xs

  word_set-IsSide : (xs : List ℕ) → IsSide xs → word_set xs n ≡ some (take n xs)
  unfolding word_set
  word_set-IsSide xs (h, b) = ground (arith, le→leb n 64 n_le, le→leb n (length xs) h)

  side-IsEntry :
      (xs : List ℕ) (e : Entry)
      → IsSide xs
      → e.word ≡ take n xs
      → (e.position_hint ≡ no_hint) ⊎ (e.position_hint < 2 ^ 63)
      → IsEntry e
  side-IsEntry xs e (h, b) w p = record {
    fits = omega (arith, ap length w, length-take n xs);
    bytes = subst (All IsByte) (sym w) (All-take IsByte n xs b);
    hint = p;
  }

  -- The entry is at a place where `existing` occurs.
  abbrev Placed : List ℕ → List ℕ → Entry → Type 0
  Placed existing desired e =
      OccursAt (take size mem) (take n existing) e.position_hint × (e.word ≡ take n desired)

  abbrev WhenFound : List ℕ → List ℕ → Option Entry → Type 0
  WhenFound existing desired none = IsAbsent (take size mem) (take n existing)
  WhenFound existing desired (some e) = Placed existing desired e × IsEntry e

  entry_from_argument-Ensures :
      (existing desired : List ℕ) (s : ℕ)
      → IsSide desired
      → Ensures
          (entry_from_argument existing desired n mem size)
          s
          (λ o t. WhenFound existing desired o)
  unfolding entry_from_argument entry_at
  entry_from_argument-Ensures existing desired s d =
      let found : List ℕ = positions max_num_positions mem size (take n existing) 0 in
      lift-Ensures _ (word_set-IsSide desired d) (
        if-Ensures (length found == 0)
          (λ empty. pure-Ensures _ (no_positions-IsAbsent mem size (take n existing) empty))
          λ some_found. bind-Ensures (rand-Ensures (length found) s) λ k t b.
            let (p, at) = get_elem?_lt found k (omega (arith, ==_false→ne _ _ some_found)) in
            lift-Ensures _ at (
              pure-Ensures _ (
                placed p (
                  All-get_elem? (OccursAt (take size mem) (take n existing)) found k p
                    (positions-OccursAt mem size (take n existing) max_num_positions 0 room) at))))
    where
      placed :
          (p : ℕ)
          → OccursAt (take size mem) (take n existing) p
          → WhenFound existing desired (some (entry_at (take n desired) p))
      placed p o = (
        (o, refl),
        side-IsEntry desired (entry_at (take n desired) p) d refl
            (inr (omega (arith, o.0, length-take size mem))),
      )

  -- `MakeDictionaryEntryFromCMP` on words of at most 64 bytes never faults. The entry is valid;
  -- it has a position hint where one side of the comparison occurs in the input, and then its
  -- word is the mutation of the other side; or neither side occurs in the input, it has no hint,
  -- and its word is the mutation of either side.
  pub make_entry-Ensures :
      (arg1 arg2 mutation1 mutation2 : List ℕ) (s : ℕ)
      → IsSide mutation1
      → IsSide mutation2
      → Ensures
          (make_entry arg1 arg2 mutation1 mutation2 n mem size)
          s
          (λ e t. IsEntry e × IsMatch arg1 arg2 mutation1 mutation2 n (take size mem) e)
  unfolding make_entry plain_entry entry_of
  make_entry-Ensures arg1 arg2 mutation1 mutation2 s d1 d2 =
      bind-Ensures (rand_bool-Ensures s) λ b t _.
        bind-Ensures
          (entry_from_argument-Ensures (choose b arg1 arg2) (choose b mutation2 mutation1) t
            (side b))
          λ one u f. tried b one u f
    where
      side : (b : Bool) → IsSide (choose b mutation2 mutation1)
      side true = d2
      side false = d1

      side' : (b : Bool) → IsSide (choose b mutation1 mutation2)
      side' true = d1
      side' false = d2

      match_one :
          (b : Bool) (e : Entry)
          → Placed (choose b arg1 arg2) (choose b mutation2 mutation1) e
          → IsMatch arg1 arg2 mutation1 mutation2 n (take size mem) e
      match_one true e (o, w) = first o w
      match_one false e (o, w) = second o w

      match_two :
          (b : Bool) (e : Entry)
          → Placed (choose b arg2 arg1) (choose b mutation1 mutation2) e
          → IsMatch arg1 arg2 mutation1 mutation2 n (take size mem) e
      match_two true e (o, w) = second o w
      match_two false e (o, w) = first o w

      plain :
          (b : Bool)
          → IsAbsent (take size mem) (take n (choose b arg1 arg2))
          → IsAbsent (take size mem) (take n (choose b arg2 arg1))
          → IsMatch arg1 arg2 mutation1 mutation2 n
              (take size mem)
              (entry_of (take n (choose b mutation1 mutation2)))
      plain true one two = neither one two refl (inl refl)
      plain false one two = neither two one refl (inr refl)

      last :
          (b : Bool) (two : Option Entry) (t : ℕ)
          → IsAbsent (take size mem) (take n (choose b arg1 arg2))
          → WhenFound (choose b arg2 arg1) (choose b mutation1 mutation2) two
          → Ensures
              (elim two [
                | some entry ↦ pure entry
                | none ↦ plain_entry (choose b mutation1 mutation2) n
              ])
              t
              (λ e t. IsEntry e × IsMatch arg1 arg2 mutation1 mutation2 n (take size mem) e)
      last b (some e) t one (placed, valid) = pure-Ensures e (valid, match_two b e placed)
      last b none t one two =
          lift-Ensures _ (word_set-IsSide _ (side' b))
            (pure-Ensures _ (side-IsEntry _ _ (side' b) refl (inl refl), plain b one two))

      tried :
          (b : Bool) (one : Option Entry) (t : ℕ)
          → WhenFound (choose b arg1 arg2) (choose b mutation2 mutation1) one
          → Ensures
              (elim one [
                | some entry ↦ pure entry
                | none ↦
                    entry_from_argument
                      (choose b arg2 arg1)
                      (choose b mutation1 mutation2)
                      n
                      mem
                      size
                    >>= λ two. elim two [
                      | some entry ↦ pure entry
                      | none ↦ plain_entry (choose b mutation1 mutation2) n
                    ]
              ])
              t
              (λ e t. IsEntry e × IsMatch arg1 arg2 mutation1 mutation2 n (take size mem) e)
      tried b (some e) t (placed, valid) = pure-Ensures e (valid, match_one b e placed)
      tried b none t f =
          bind-Ensures
            (entry_from_argument-Ensures (choose b arg2 arg1) (choose b mutation1 mutation2) t
              (side' b))
            λ two u g. last b two u f g
