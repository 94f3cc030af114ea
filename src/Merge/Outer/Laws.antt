-- ===== src/Merge/Outer/Laws.antt =====
-- The attempts of `CrashResistantMerge` in FuzzerMerge.cpp are enough, whatever input the target
-- crashes on, and the merge after them does not fail.
use pfuzzer.Base.{
  ℕ, zero, suc, ◌+◌, ◌≤◌, ◌<◌, ◌≡◌, refl, ◌==◌, ◌&&◌, Bool, true, false, List, [], ◌∷◌, ◌++◌,
  length, take, drop, map, All, arith, ap, sym, subst, ◌∙◌, ◌⊎◌, inl, inr, Option-cases, Bool-cases,
  All-append, length-append, length-drop,
}
use mathlib.Core.List.{append_assoc}
use native.Mathlib.Decide.{dec_lt}
use pfuzzer.Streams.{lines_of, print_number, print_numbers}
use pfuzzer.Streams.Laws.{IsLine}
use pfuzzer.Command.{Command, Text}
use pfuzzer.Merge.{MergeFile}
use pfuzzer.Merge.Control.{
  Merger, parsed, parse, unlines, Target, internal_loop, internal_step, started_marker, ft_marker,
  cov_marker, write_new_control_file, files_to_use, is_known,
}
use pfuzzer.Merge.Control.Accepted.{parse_bounds}
use pfuzzer.Merge.Control.Steps.{reached, reached_bounds, appended_lem}
use pfuzzer.Merge.Control.Written.{
  print_number-IsLine, lines_of-unlines, parse_written, files_to_use-IsLine, named_file,
}
use pfuzzer.Merge.Cover.Laws.{set_cover_merge_lem}
use pfuzzer.Merge.Laws.{merge-contains}
use pfuzzer.Merge.Outer.{
  attempts_loop, inner_process, Ending, merges, final_merge, ending_of_cover, ending_of_merge,
  crash_resistant_merge, resume, start_merge, run_merge, inner_command,
}

print_numbers-IsLine : (xs : List ℕ) → IsLine (print_numbers xs)
unfolding print_numbers
print_numbers-IsLine [] = tt
print_numbers-IsLine (x ∷ xs) = (
  refl,
  All-append _ (print_number x) (print_numbers xs) (print_number-IsLine x)
      (print_numbers-IsLine xs),
)

numbered-IsLine :
    (marker : List ℕ) (i : ℕ) (r : List ℕ)
    → IsLine marker
    → IsLine r
    → IsLine (marker ++ (b' ' ∷ (print_number i ++ r)))
numbered-IsLine marker i r h k =
    All-append _ marker (b' ' ∷ (print_number i ++ r)) h
      (refl, All-append _ (print_number i) r (print_number-IsLine i) k)

unlines-append : (ls ms : List (List ℕ)) → unlines (ls ++ ms) ≡ unlines ls ++ unlines ms
unfolding unlines
unlines-append [] ms = refl
unlines-append (l ∷ ls) ms =
    ap (λ r. l ++ (b'\n' ∷ r)) (unlines-append ls ms)
    ∙ sym (append_assoc l (b'\n' ∷ unlines ls) (unlines ms))

less : (n k e r : ℕ) → k ≤ e + suc n → e ≤ r → (e < k → e < r) → k ≤ r + n
less n k e r l s o = elim (dec_lt e k) [ yes p ↦ omega (arith, o p) | no p ↦ omega (arith, p) ]

module _ (content : List ℕ → List ℕ) (max_input_len : ℕ) (is_set_cover : Bool) where
  internal_loop-IsLine :
      (run : Target) (i : ℕ) (fs : List MergeFile) (all pcs : List ℕ)
      → All IsLine (internal_loop content max_input_len run is_set_cover i fs all pcs).0
  unfolding internal_loop
  internal_loop-IsLine run i [] all pcs = tt
  internal_loop-IsLine run i (f ∷ fs) all pcs =
      elim (Option-cases (run i (take max_input_len (content f.name)))) [
        | inl crash ↦ rw (crash, internal_loop) (before, tt)
        | inr ((xs, observed), ok) ↦
            rw (ok, internal_loop)
              (
                before,
                (
                  numbered-IsLine ft_marker i _ (refl, (refl, tt)) (print_numbers-IsLine _),
                  (
                    numbered-IsLine cov_marker i _ (refl, (refl, (refl, tt)))
                        (print_numbers-IsLine _),
                    internal_loop-IsLine run (i + 1) fs _ _,
                  ),
                ),
              )
      ]
    where
      before : IsLine (
          started_marker
          ++ (b' '
              ∷ (print_number i
                  ++ (b' ' ∷ print_number (length (take max_input_len (content f.name)))))))
      before =
          numbered-IsLine started_marker i _
            (refl, (refl, (refl, (refl, (refl, (refl, (refl, tt))))))) (refl, print_number-IsLine _)

  -- A control file that `Parse` accepts, whether it reads the coverage or not.
  pub record IsControl (ls : List (List ℕ)) (k e : ℕ) : Type 0 where
    pub lines : All IsLine ls
    pub plain : Merger
    pub covered : Merger
    pub plain_parsed : parse false [] ls ≡ parsed plain
    pub covered_parsed : parse true [] ls ≡ parsed covered
    pub plain_size : length plain.files ≡ k
    pub covered_size : length covered.files ≡ k
    pub plain_first : plain.first_not_processed_file ≡ e
    pub covered_first : covered.first_not_processed_file ≡ e

  -- What an inner process does with it.
  record IsRun (n : ℕ) (runs : ℕ → Target) (cmd : Command) (ls : List (List ℕ)) (k e : ℕ)
      : Type 0 where
    more : List (List ℕ)
    ended : Bool
    reached_file : ℕ
    ran :
        inner_process content max_input_len runs is_set_cover n cmd (unlines ls)
        ≡ (ended, unlines (ls ++ more))
    control : IsControl (ls ++ more) k reached_file
    onward : e < k → e < reached_file
    whole : (ended ≡ false) ⊎ (reached_file ≡ k)
    stays : e ≤ reached_file

  inner_process-IsRun :
      (n : ℕ) (runs : ℕ → Target) (cmd : Command) (ls : List (List ℕ)) (k e : ℕ)
      → IsControl ls k e
      → IsRun n runs cmd ls k e
  unfolding inner_process internal_step
  inner_process-IsRun n runs cmd ls k e h =
      let i = h.plain.first_not_processed_file in
      let fs = drop i h.plain.files in
      let loop = internal_loop content max_input_len (runs n) is_set_cover i fs [] [] in
      let (_, _, _, bounds) = parse_bounds false [] ls h.plain h.plain_parsed in
      let rest : i + length fs ≡ k =
        omega (arith, length-drop i h.plain.files, h.plain_size, bounds) in
      let (p, pe, ps, pf) =
        appended_lem content max_input_len (runs n) is_set_cover false ls h.plain i fs
          h.plain_parsed refl (rest ∙ sym h.plain_size) in
      let (q, qe, qs, qf) =
        appended_lem content max_input_len (runs n) is_set_cover true ls h.covered i fs
          h.covered_parsed (h.covered_first ∙ sym h.plain_first) (rest ∙ sym h.covered_size) in
      let (low, high, up, all_done) =
        reached_bounds content max_input_len (runs n) is_set_cover i fs [] [] in
      record {
        more = loop.0;
        ended = loop.1;
        reached_file = reached content max_input_len (runs n) is_set_cover i fs;
        ran =
            rw (lines_of-unlines ls h.lines, h.plain_parsed, inner_process, internal_step)
              (ap (λ u. (loop.1, u)) (sym (unlines-append ls loop.0)));
        control = record {
          lines = All-append IsLine ls loop.0 h.lines (internal_loop-IsLine (runs n) i fs [] []);
          plain = p;
          covered = q;
          plain_parsed = pe;
          covered_parsed = qe;
          plain_size = ps ∙ h.plain_size;
          covered_size = qs ∙ h.covered_size;
          plain_first = pf;
          covered_first = qf;
        };
        onward = λ l. omega (arith, up (omega (arith, h.plain_first, rest)), h.plain_first);
        whole = elim all_done [ inl a ↦ inl a | inr a ↦ inr (a ∙ rest) ];
        stays = omega (arith, h.plain_first);
      }

  module _ (runs : ℕ → Target) (cmd : Command) where
    -- What the loop makes of a process's result.
    abbrev after : ℕ → Bool × List ℕ → List ℕ
    after n (passed, text) = elim passed [
      | true ↦ text
      | false ↦ attempts_loop (inner_process content max_input_len runs is_set_cover) cmd n text
    ]

    -- From a control file of lines that all end with a line break, which `Parse` accepts with and
    -- without coverage, as many attempts as files are left leave a control file that it accepts
    -- and in which all files are processed, since every inner process gets past at least one
    -- file, whatever the target crashes on.
    pub attempts_loop_lem :
        (n : ℕ) (ls : List (List ℕ)) (k e : ℕ)
        → IsControl ls k e
        → k ≤ e + n
        → (ls' : List (List ℕ)) × (attempts_loop
              (inner_process content max_input_len runs is_set_cover)
              cmd
              n
              (unlines ls)
            ≡ unlines ls')
          × IsControl ls' k k
    unfolding attempts_loop
    attempts_loop_lem zero ls k e h l =
        let (_, _, _, bounds) = parse_bounds false [] ls h.plain h.plain_parsed in
        let same : e ≡ k = omega (arith, h.plain_first, h.plain_size, bounds) in
        (ls, refl, subst (IsControl ls k) same h)
    attempts_loop_lem (suc n) ls k e h l =
        let r = inner_process-IsRun n runs cmd ls k e h in
        elim (Bool-cases r.ended) [
          | inl t ↦
              let all_done : r.reached_file ≡ k = elim r.whole [
                | inl f ↦ absurd (cc (t, f))
                | inr w ↦ w
              ] in
              let ran = r.ran ∙ ap (λ b. (b, unlines (ls ++ r.more))) t in
              (
                ls ++ r.more,
                ap (after n) ran,
                subst (IsControl (ls ++ r.more) k) all_done r.control,
              )
          | inr f ↦
              let ran = r.ran ∙ ap (λ b. (b, unlines (ls ++ r.more))) f in
              let (ls', e', c) =
                attempts_loop_lem n (ls ++ r.more) k r.reached_file r.control
                  (less n k e r.reached_file l r.stays r.onward) in
              (ls', ap (after n) ran ∙ e', c)
        ]

length-files_to_use : (ns : List Text) → length (files_to_use [] ns) ≡ length ns
unfolding files_to_use is_known
length-files_to_use [] = refl
length-files_to_use (n ∷ ns) = ap suc (length-files_to_use ns)

-- The lines of a fresh control file.
abbrev pub fresh_lines : List Text → List Text → List Text
fresh_lines old new =
    print_number (length (files_to_use [] old ++ files_to_use [] new))
    ∷ print_number (length (files_to_use [] old))
    ∷ (files_to_use [] old ++ files_to_use [] new)

-- A fresh control file is one that `Parse` accepts.
pub fresh-IsControl :
    (content : List ℕ → List ℕ) (max_input_len : ℕ) (is_set_cover : Bool) (old new : List Text)
    → All IsLine old
    → All IsLine new
    → 0 < length old + length new
    → length old + length new ≤ 10000000
    → IsControl content max_input_len is_set_cover
        (fresh_lines old new)
        (length (files_to_use [] old ++ files_to_use [] new))
        0
fresh-IsControl content max_input_len is_set_cover old new ho hn p q =
    let from_old = files_to_use [] old in
    let used = from_old ++ files_to_use [] new in
    let n : length used ≡ length old + length new =
      length-append from_old (files_to_use [] new)
      ∙ omega (arith, length-files_to_use old, length-files_to_use new) in
    let k : length from_old ≤ length used =
      omega (arith, length-append from_old (files_to_use [] new)) in
    record {
      lines = (
        print_number-IsLine (length used),
        (
          print_number-IsLine (length from_old),
          All-append IsLine from_old _ (files_to_use-IsLine [] old ho)
              (files_to_use-IsLine [] new hn),
        ),
      );
      plain = _;
      covered = _;
      plain_parsed =
          parse_written false (length from_old) used (omega (arith, n)) (omega (arith, n)) k;
      covered_parsed =
          parse_written true (length from_old) used (omega (arith, n)) (omega (arith, n)) k;
      plain_size = length-named used;
      covered_size = length-named used;
      plain_first = refl;
      covered_first = refl;
    }
  where
    length-named : (ns : List Text) → length (map named_file ns) ≡ length ns
    length-named [] = refl
    length-named (x ∷ ns) = ap suc (length-named ns)

-- What the merge after the attempts returns.
pub data Merges : Ending → Type 0 where
  merges_files :
      (new_files : List Text) (new_features new_cov : List ℕ)
      → Merges (merges new_files new_features new_cov)

final_merge-Merges :
    (is_set_cover : Bool) (known : List MergeFile) (features cov : List ℕ) (m : Merger)
    → m.num_files_in_first_corpus ≤ length m.files
    → Merges (final_merge is_set_cover known features cov (parsed m))
unfolding final_merge ending_of_cover ending_of_merge
final_merge-Merges true known features cov m h =
    let (t, e, _, _) =
      set_cover_merge_lem 0 0 m.num_files_in_first_corpus (m.files ++ known) features cov
        (omega (arith, length-append m.files known)) in
    rw e (merges_files t.new_files t.new_features t.new_cov)
final_merge-Merges false known features cov m h =
    let (t, e, _, _) =
      merge-contains 0 m.num_files_in_first_corpus (m.files ++ known) features cov
        (omega (arith, length-append m.files known)) in
    rw e (merges_files t.new_files t.new_features t.new_cov)

module _ (content : List ℕ → List ℕ) (max_input_len : ℕ) (runs : ℕ → Target) (dev_null : Text) where
  ran_to_end :
      (cmd : Command) (n : ℕ) (ls : List (List ℕ)) (k : ℕ) (is_set_cover : Bool)
      (features cov : List ℕ)
      → IsControl content max_input_len is_set_cover ls k 0
      → k ≤ n
      → Merges (
          run_merge
            (inner_process content max_input_len runs is_set_cover)
            cmd
            n
            (unlines ls)
            is_set_cover
            []
            features
            cov)
  unfolding run_merge
  ran_to_end cmd n ls k is_set_cover features cov h l =
      let (ls', e, c) =
        attempts_loop_lem content max_input_len is_set_cover runs cmd n ls k 0 h (omega arith) in
      let (_, _, first, _) = parse_bounds true [] ls' c.covered c.covered_parsed in
      let read =
        ap (λ t. parse true [] (lines_of t)) e
        ∙ ap (parse true []) (lines_of-unlines ls' c.lines)
        ∙ c.covered_parsed in
      subst (λ o. Merges (final_merge is_set_cover [] features cov o)) (sym read)
        (final_merge-Merges is_set_cover [] features cov c.covered first)

  -- Started without a control file, on between one and 10 million inputs whose names have no line
  -- break, `CrashResistantMerge` with the inner process of `CrashResistantMergeInternalStep` ends
  -- with a merge, of either kind, whatever inputs the target crashes on and whatever it covers:
  -- it never exits early, no assertion fails and `Parse` accepts what the inner processes wrote.
  pub crash_resistant_merge-Merges :
      (args old new : List Text) (features cov : List ℕ) (cf_path : Text)
      (verbose is_set_cover : Bool)
      → All IsLine old
      → All IsLine new
      → 0 < length old + length new
      → length old + length new ≤ 10000000
      → Merges (
          crash_resistant_merge
            (inner_process content max_input_len runs is_set_cover)
            dev_null
            args
            old
            new
            features
            cov
            cf_path
            verbose
            is_set_cover
            [])
  unfolding crash_resistant_merge resume start_merge write_new_control_file
  crash_resistant_merge-Merges args old new features cov cf_path verbose is_set_cover ho hn p q =
      let some_input : (length new == 0 && length old == 0) ≡ false = ground (arith, p) in
      let cmd = inner_command args cf_path verbose is_set_cover dev_null in
      rw some_input (
        ran_to_end cmd _ _ _ is_set_cover features cov
          (fresh-IsControl content max_input_len is_set_cover old new ho hn p q) (omega arith))
