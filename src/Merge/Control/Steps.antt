-- ===== src/Merge/Control/Steps.antt =====
-- What the inner process of a merge appends to the control file in FuzzerMerge.cpp is read back.
use pfuzzer.Base.{
  ℕ, suc, ◌+◌, ◌^◌, ◌≤◌, ◌<◌, ◌≡◌, refl, Bool, true, false, List, [], ◌∷◌, ◌++◌, Option, none, some,
  length, take, arith, ap, sym, subst, ◌∙◌, inl, inr, ◌⊎◌, length-set, get_elem?_lt, ==_refl,
  Option-cases,
}
use pfuzzer.Base.Sets.{insert_all}
use pfuzzer.Streams.{read_word, read_number, print_number, got}
use pfuzzer.Streams.Laws.{Ends, read_number-print_number, read_number_space, print_numbers-Ends}
use pfuzzer.Merge.{MergeFile}
use pfuzzer.Merge.Control.{
  Merger, Outcome, refused, faulted, parsed, ◌>>=◌, Progress, started_marker, ft_marker, cov_marker,
  parse_started, parse_ft, parse_cov, parse_marker, parse_line, parse_lines, finish, parse, is_seen,
  Target, internal_loop,
}
use pfuzzer.Merge.Control.Laws.{Keeps, parse_lines-Keeps, Parses, parses, bind-Parses}
use pfuzzer.Merge.Control.Accepted.{parse-IsAccepted, kept, finish_total, finish-IsFinished}

-- The loop of `Parse` expects file `i` next, and has seen the last line on a file.
pub record IsAt (k i : ℕ) (seen : Option ℕ) (b : Bool) (s : Progress) : Type 0 where
  pub size : length s.files ≡ k
  pub expects : s.expected ≡ i
  pub last : s.last_seen ≡ seen
  pub marked : s.have_ft ≡ b

word_started :
    (r : List ℕ) → read_word (started_marker ++ (b' ' ∷ r)) ≡ some (started_marker, b' ' ∷ r)
unfolding read_word
word_started r = refl

word_ft : (r : List ℕ) → read_word (ft_marker ++ (b' ' ∷ r)) ≡ some (ft_marker, b' ' ∷ r)
unfolding read_word
word_ft r = refl

word_cov : (r : List ℕ) → read_word (cov_marker ++ (b' ' ∷ r)) ≡ some (cov_marker, b' ' ∷ r)
unfolding read_word
word_cov r = refl

parse_numbered :
    (c : Bool) (line marker r : List ℕ) (i : ℕ) (s : Progress)
    → read_word line ≡ some (marker, b' ' ∷ (print_number i ++ r))
    → i < 2 ^ 32
    → Ends r
    → parse_line c line s ≡ parse_marker c marker i r s
unfolding parse_line
parse_numbered c line marker r i s e l h =
    let n : read_number 32 (b' ' ∷ (print_number i ++ r)) ≡ got i r =
      read_number_space 32 (print_number i ++ r) ∙ read_number-print_number 32 i r l h in
    rw (e, parse_line) (rw n refl)

seen_here :
    (k i : ℕ) (b : Bool) (s : Progress) → IsAt k (suc i) (some i) b s → is_seen i s.last_seen ≡ true
unfolding is_seen
seen_here k i b s p = ap (is_seen i) p.last ∙ ==_refl i

parse_ft-IsAt :
    (c : Bool) (k i : ℕ) (r : List ℕ) (b : Bool) (s : Progress)
    → i < k
    → IsAt k (suc i) (some i) b s
    → Parses (IsAt k (suc i) (some i) true) (parse_ft c i r s)
unfolding parse_ft
parse_ft-IsAt true k i r b s h p =
    let (f, at) = get_elem?_lt s.files i (omega (arith, p.size)) in
    rw (seen_here k i b s p, at)
      (parses _ (record {
        size = length-set s.files i _ ∙ p.size;
        expects = p.expects;
        last = p.last;
        marked = refl;
      }))
parse_ft-IsAt false k i r b s h p =
    rw (seen_here k i b s p)
      (parses _ (record { size = p.size; expects = p.expects; last = p.last; marked = refl }))

parse_cov-IsAt :
    (c : Bool) (k i : ℕ) (r : List ℕ) (b : Bool) (s : Progress)
    → i < k
    → IsAt k (suc i) (some i) b s
    → Parses (IsAt k (suc i) (some i) b) (parse_cov c i r s)
unfolding parse_cov
parse_cov-IsAt true k i r b s h p =
    let (f, at) = get_elem?_lt s.files i (omega (arith, p.size)) in
    rw (seen_here k i b s p, at)
      (parses _ (record {
        size = length-set s.files i _ ∙ p.size;
        expects = p.expects;
        last = p.last;
        marked = p.marked;
      }))
parse_cov-IsAt false k i r b s h p = rw (seen_here k i b s p) (parses s p)

module _ (c : Bool) (k i : ℕ) (h : i < k) (small : k ≤ 2 ^ 32) where
  started_step :
      (r : List ℕ) (seen : Option ℕ) (b : Bool) (s : Progress)
      → Ends r
      → IsAt k i seen b s
      → Parses
          (IsAt k (suc i) (some i) false)
          (parse_line c (started_marker ++ (b' ' ∷ (print_number i ++ r))) s)
  unfolding parse_marker parse_started
  started_step r seen b s e p =
      let (f, at) = get_elem?_lt s.files i (omega (arith, p.size)) in
      rw
        (
          parse_numbered c _ started_marker r i s (word_started _) (omega arith) e,
          p.expects,
          ==_refl i,
          at,
        )
        (parses _ (record {
          size = length-set s.files s.expected _ ∙ p.size;
          expects = omega (arith, p.expects);
          last = ap some p.expects;
          marked = refl;
        }))

  ft_step :
      (r : List ℕ) (b : Bool) (s : Progress)
      → Ends r
      → IsAt k (suc i) (some i) b s
      → Parses
          (IsAt k (suc i) (some i) true)
          (parse_line c (ft_marker ++ (b' ' ∷ (print_number i ++ r))) s)
  unfolding parse_marker
  ft_step r b s e p =
      rw (parse_numbered c _ ft_marker r i s (word_ft _) (omega arith) e)
        (parse_ft-IsAt c k i r b s h p)

  cov_step :
      (r : List ℕ) (b : Bool) (s : Progress)
      → Ends r
      → IsAt k (suc i) (some i) b s
      → Parses
          (IsAt k (suc i) (some i) b)
          (parse_line c (cov_marker ++ (b' ' ∷ (print_number i ++ r))) s)
  unfolding parse_marker
  cov_step r b s e p =
      rw (parse_numbered c _ cov_marker r i s (word_cov _) (omega arith) e)
        (parse_cov-IsAt c k i r b s h p)

-- The loop's variables where `e` files of `k` are processed.
pub record IsProcessed (k e : ℕ) (s : Progress) : Type 0 where
  pub size : length s.files ≡ k
  pub expects : s.expected ≡ e

module _ (content : List ℕ → List ℕ) (max_input_len : ℕ) (run : Target) (is_set_cover : Bool) where
  abbrev looped : ℕ → List MergeFile → List ℕ → List ℕ → List (List ℕ) × Bool
  looped = internal_loop content max_input_len run is_set_cover

  -- The number of the file after the one that the process crashes on, or after the last one.
  unfoldable pub reached : ℕ → List MergeFile → ℕ
  reached i [] = i
  reached i (f ∷ fs) = elim (run i (take max_input_len (content f.name))) [
    | none ↦ suc i
    | some (xs, observed) ↦ reached (i + 1) fs
  ]

  pub reached_bounds :
      (i : ℕ) (fs : List MergeFile) (all pcs : List ℕ)
      → (i ≤ reached i fs)
        × (reached i fs ≤ i + length fs)
        × (0 < length fs → i < reached i fs)
        × (((looped i fs all pcs).1 ≡ false) ⊎ (reached i fs ≡ i + length fs))
  unfolding reached internal_loop
  reached_bounds i [] all pcs =
      (omega arith, omega arith, λ h. absurd (omega arith), inr (omega arith))
  reached_bounds i (f ∷ fs) all pcs =
      elim (Option-cases (run i (take max_input_len (content f.name)))) [
        | inl crash ↦
            rw (crash, internal_loop, reached)
              (omega arith, omega arith, λ h. omega arith, inl refl)
        | inr ((xs, observed), ok) ↦
            let (p, q, _, r) =
              reached_bounds (i + 1) fs (insert_all xs all) (insert_all observed pcs) in
            rw (ok, internal_loop, reached)
              (
                omega arith,
                omega arith,
                λ h. omega arith,
                elim r [ inl a ↦ inl a | inr a ↦ inr (omega arith) ],
              )
      ]

  internal_loop-IsProcessed :
      (c : Bool) (i k : ℕ) (fs : List MergeFile) (all pcs : List ℕ) (seen : Option ℕ) (b : Bool)
      (s : Progress)
      → i + length fs ≡ k
      → k ≤ 2 ^ 32
      → IsAt k i seen b s
      → Parses (IsProcessed k (reached i fs)) (parse_lines c (looped i fs all pcs).0 s)
  unfolding internal_loop parse_lines reached
  internal_loop-IsProcessed c i k [] all pcs seen b s e small p =
      parses s (record { size = p.size; expects = p.expects })
  internal_loop-IsProcessed c i k (f ∷ fs) all pcs seen b s e small p =
      elim (Option-cases (run i (take max_input_len (content f.name)))) [
        | inl crash ↦
            rw (crash, internal_loop, reached)
              (bind-Parses _ _ _ _ (started_step c k i l small size_part seen b s refl p)
                (λ t q. parses t (record { size = q.size; expects = q.expects })))
        | inr ((xs, observed), ok) ↦
            rw (ok, internal_loop, reached)
              (bind-Parses _ _ _ _ (started_step c k i l small size_part seen b s refl p) (λ t q.
                bind-Parses _ _ _ _ (ft_step c k i l small _ false t (print_numbers-Ends _) q)
                  (λ u v.
                    bind-Parses _ _ _ _ (cov_step c k i l small _ true u (print_numbers-Ends _) v)
                      (λ w x.
                        internal_loop-IsProcessed c (i + 1) k fs (insert_all xs all)
                          (insert_all observed pcs) (some i) true w (omega arith) small (next x)))))
      ]
    where
      l : i < k
      l = omega arith

      size_part : List ℕ
      size_part = b' ' ∷ print_number (length (take max_input_len (content f.name)))

      next : {w : Progress} → IsAt k (suc i) (some i) true w → IsAt k (i + 1) (some i) true w
      next x = record {
        size = x.size;
        expects = omega (arith, x.expects);
        last = x.last;
        marked = x.marked;
      }

  parsed_state :
      (k e : ℕ) (o : Outcome Progress)
      → Parses (IsProcessed k e) o
      → (t : Progress) × (o ≡ parsed t) × IsProcessed k e t
  parsed_state k e refused p = elim p [ ]
  parsed_state k e faulted p = elim p [ ]
  parsed_state k e (parsed t) (parses _ q) = (t, refl, q)

  -- What the inner process appends to an accepted control file makes an accepted one, in which as
  -- many files are processed as it reached.
  pub appended_lem :
      (c : Bool) (ls : List (List ℕ)) (m : Merger) (i : ℕ) (fs : List MergeFile)
      → parse c [] ls ≡ parsed m
      → m.first_not_processed_file ≡ i
      → i + length fs ≡ length m.files
      → (m' : Merger) × (parse c [] (ls ++ (looped i fs [] []).0) ≡ parsed m')
        × (length m'.files ≡ length m.files)
        × (m'.first_not_processed_file ≡ reached i fs)
  appended_lem c ls m i fs h first left =
      let more = (looped i fs [] []).0 in
      let a = parse-IsAccepted c [] ls m h in
      let f = finish-IsFinished a.num_first a.state m a.finished in
      let size : length m.files ≡ a.n =
        ap (length {A = MergeFile}) f.same_files ∙ a.progress.size in
      let (t, e, g) = parsed_state a.n (reached i fs) _ (
        internal_loop-IsProcessed c i a.n fs [] [] a.state.last_seen a.state.have_ft a.state
          (omega (arith, size)) (omega (arith, a.bounded))
          (record {
            size = a.progress.size;
            expects = sym f.same_expected ∙ first;
            last = refl;
            marked = refl;
          })) in
      let p = kept a.n t (subst (Keeps a.n) e (parse_lines-Keeps a.n c more a.state a.progress)) in
      let (m', d) = finish_total a.n a.num_first t p in
      let f' = finish-IsFinished a.num_first t m' d in
      (
        m',
        a.goes_on more ∙ ap (λ o. o >>= λ u. finish a.num_first u) e ∙ d,
        omega (arith, ap (length {A = MergeFile}) f'.same_files, p.size, size),
        f'.same_expected ∙ g.expects,
      )
