-- ===== src/Merge/Control/Accepted.antt =====
-- The texts that `Merger::Parse` of FuzzerMerge.cpp accepts, and what more lines add.
use pfuzzer.Base.{
  ℕ, ◌+◌, ◌-◌, ◌≤◌, ◌<◌, ◌≡◌, refl, ltb, ◌==◌, ◌||◌, Bool, true, false, List, [], ◌∷◌, ◌++◌, Option,
  none, some, length, take, replicate, get_elem?, arith, ap, subst, ◌∙◌, Bool-cases, inl, inr,
  length-append, length-take, length-replicate, ltb_false→le, Option-cases, get_elem?_lt,
}
use pfuzzer.Merge.{MergeFile}
use pfuzzer.Merge.Control.{
  Merger, Outcome, refused, faulted, parsed, ◌>>=◌, Progress, blank_file, read_names, parse_lines,
  finish, resize, merger_of, parse_files, parse, extract_or,
}
use pfuzzer.Merge.Control.Laws.{
  >>=-eq-parsed, parse_lines-append, IsProgress, Keeps, keeps, parse_lines-Keeps, Named, named,
  read_names-Named,
}

-- How a text was accepted: the loop's variables at its end, and that the loop goes on from there
-- where the text goes on.
pub record IsAccepted (c : Bool) (old : List MergeFile) (ls : List (List ℕ)) (m : Merger)
    : Type 0 where
  pub n : ℕ
  pub num_first : ℕ
  pub state : Progress
  pub progress : IsProgress n state
  pub positive : 0 < n
  pub bounded : n ≤ 10000000
  pub first : num_first ≤ n
  pub finished : finish num_first state ≡ parsed m
  pub goes_on :
      (more : List (List ℕ))
      → parse c old (ls ++ more) ≡ (parse_lines c more state >>= λ t. finish num_first t)

length-resize : (n : ℕ) (old : List MergeFile) → length (resize n old) ≡ n
unfolding resize
length-resize n old = omega (
  arith,
  length-append (take n old) (replicate (n - length old) blank_file),
  length-take n old,
  length-replicate (n - length old) blank_file,
)

abbrev first_progress : List MergeFile → Progress
first_progress files = record {
  files = files;
  expected = 0;
  last_seen = none;
  have_ft = true;
  pcs = [];
}

pub kept : (k : ℕ) (s : Progress) → Keeps k (parsed s) → IsProgress k s
kept k s (keeps _ h) = h

record IsRead (c : Bool) (n num_first : ℕ) (old : List MergeFile) (ls : List (List ℕ)) (m : Merger)
    : Type 0 where
  state : Progress
  progress : IsProgress n state
  finished : finish num_first state ≡ parsed m
  goes_on :
      (more : List (List ℕ))
      → parse_files c n num_first old (ls ++ more)
        ≡ (parse_lines c more state >>= λ t. finish num_first t)

IsRead-files :
    (c : Bool) (n num_first : ℕ) (old : List MergeFile) (ls : List (List ℕ)) (m : Merger)
    (o : Outcome (List MergeFile × List (List ℕ)))
    → Named (resize n old) ls o
    → (o >>= λ (files, rest). parse_lines c rest (first_progress files) >>= λ s. finish num_first s)
      ≡ parsed m
    → IsRead c n num_first old ls m
unfolding parse_files
IsRead-files c n num_first old ls m refused q h = absurd (cc)
IsRead-files c n num_first old ls m faulted q h = elim q [ ]
IsRead-files c n num_first old ls m (parsed (gs, rest)) (named _ _ size again) h =
    let (s, e, f) = >>=-eq-parsed (parse_lines c rest (first_progress gs)) (finish num_first) h in
    let start : IsProgress n (first_progress gs) = record {
      size = size ∙ length-resize n old;
      bounded = omega arith;
      seen = λ j e. absurd (cc (e));
    } in
    record {
      state = s;
      progress =
          kept n s (subst (Keeps n) e (parse_lines-Keeps n c rest (first_progress gs) start));
      finished = f;
      goes_on = λ more.
          ap
            (λ o. o >>= λ (files, rest').
              parse_lines c rest' (first_progress files) >>= λ t. finish num_first t)
            (again more)
          ∙ ap (λ o. o >>= λ t. finish num_first t)
              (parse_lines-append c rest more (first_progress gs))
          ∙ ap (λ o. (o >>= λ t. parse_lines c more t) >>= λ t. finish num_first t) e;
    }

parse_files-IsRead :
    (c : Bool) (n num_first : ℕ) (old : List MergeFile) (ls : List (List ℕ)) (m : Merger)
    → parse_files c n num_first old ls ≡ parsed m
    → IsRead c n num_first old ls m
unfolding parse_files
parse_files-IsRead c n num_first old ls m h =
    IsRead-files c n num_first old ls m (read_names (resize n old) ls)
      (read_names-Named (resize n old) ls) h

pub parse-IsAccepted :
    (c : Bool) (old : List MergeFile) (ls : List (List ℕ)) (m : Merger)
    → parse c old ls ≡ parsed m
    → IsAccepted c old ls m
unfolding parse
parse-IsAccepted c old [] m h = absurd (cc)
parse-IsAccepted c old (l ∷ []) m h = absurd (cc)
parse-IsAccepted c old (l ∷ k ∷ ls) m h = elim (Bool-cases (n == 0 || ltb 10000000 n)) [
  | inl e ↦ absurd (cc (rw e at h))
  | inr e ↦ elim (Bool-cases (ltb n num_first)) [
    | inl f ↦ absurd (cc (rw (e, f) at h))
    | inr f ↦
        let r = parse_files-IsRead c n num_first old ls m (rw (e, f) at h) in
        record {
          n = n;
          num_first = num_first;
          state = r.state;
          progress = r.progress;
          positive = ground (arith, e);
          bounded = ground (arith, e);
          first = ltb_false→le n num_first f;
          finished = r.finished;
          goes_on = λ more. rw (e, f) (r.goes_on more);
        }
  ]
]
  where
    n : ℕ
    n = extract_or 64 0 l

    num_first : ℕ
    num_first = extract_or 64 (n + 1) k

-- What the end of `Parse` takes from the loop's variables.
pub record IsFinished (num_first : ℕ) (s : Progress) (m : Merger) : Type 0 where
  pub same_files : m.files ≡ s.files
  pub same_first : m.num_files_in_first_corpus ≡ num_first
  pub same_expected : m.first_not_processed_file ≡ s.expected
  pub no_failure : s.have_ft ≡ true → m.last_failure ≡ []

IsFinished-as :
    (num_first : ℕ) (s : Progress) (failure : List ℕ) (m : Merger)
    → (s.have_ft ≡ true → failure ≡ [])
    → parsed (merger_of num_first s failure) ≡ parsed m
    → IsFinished num_first s m
IsFinished-as num_first s failure m k h = record {
  same_files = cc (h);
  same_first = cc (h);
  same_expected = cc (h);
  no_failure = λ f. let e : m.last_failure ≡ failure = cc (h) in e ∙ k f;
}

failed_as :
    (num_first : ℕ) (s : Progress) (m : Merger) (seen : Option ℕ)
    → s.have_ft ≡ false
    → (elim seen [
      | none ↦ parsed (merger_of num_first s [])
      | some i ↦ elim (get_elem? s.files i) [
        | none ↦ faulted
        | some f ↦ parsed (merger_of num_first s f.name)
      ]
    ])
      ≡ parsed m
    → IsFinished num_first s m
failed_as num_first s m none e h = IsFinished-as num_first s [] m (λ f. refl) h
failed_as num_first s m (some i) e h = found (get_elem? s.files i) h
  where
    found :
        (o : Option MergeFile)
        → (elim o [ none ↦ faulted | some f ↦ parsed (merger_of num_first s f.name) ]) ≡ parsed m
        → IsFinished num_first s m
    found none k = absurd (cc (k))
    found (some f) k = IsFinished-as num_first s f.name m (λ g. absurd (cc (e, g))) k

pub finish-IsFinished :
    (num_first : ℕ) (s : Progress) (m : Merger)
    → finish num_first s ≡ parsed m
    → IsFinished num_first s m
unfolding finish
finish-IsFinished num_first s m h = elim (Bool-cases s.have_ft) [
  | inl e ↦ IsFinished-as num_first s [] m (λ f. refl) (rw e at h)
  | inr e ↦ failed_as num_first s m s.last_seen e (rw e at h)
]

-- Where the invariant holds, the end of `Parse` does not fail.
pub finish_total :
    (k num_first : ℕ) (s : Progress)
    → IsProgress k s
    → (m : Merger) × (finish num_first s ≡ parsed m)
unfolding finish
finish_total k num_first s h = elim (Bool-cases s.have_ft) [
  | inl e ↦ (merger_of num_first s [], rw e refl)
  | inr e ↦ elim (Option-cases s.last_seen) [
    | inl seen ↦ (merger_of num_first s [], rw (e, seen) refl)
    | inr (j, seen) ↦
        let (f, at) = get_elem?_lt s.files j (omega (arith, h.size, h.seen j seen)) in
        (merger_of num_first s f.name, rw (e, seen, at) refl)
  ]
]

-- What `Parse` accepts, whatever files the object had before, has at least one file and 10
-- million at most, a first corpus that is a part of them, and no more processed files than files.
pub parse_bounds :
    (c : Bool) (old : List MergeFile) (ls : List (List ℕ)) (m : Merger)
    → parse c old ls ≡ parsed m
    → (0 < length m.files)
      × (length m.files ≤ 10000000)
      × (m.num_files_in_first_corpus ≤ length m.files)
      × (m.first_not_processed_file ≤ length m.files)
parse_bounds c old ls m h =
    let a = parse-IsAccepted c old ls m h in
    let f = finish-IsFinished a.num_first a.state m a.finished in
    omega (
      arith,
      ap (length {A = MergeFile}) f.same_files,
      f.same_first,
      f.same_expected,
      a.progress.size,
      a.progress.bounded,
      a.positive,
      a.bounded,
      a.first,
    )
