-- ===== src/Merge/Control/Written.antt =====
-- `Merger::Parse` of FuzzerMerge.cpp reads what `WriteNewControlFile` writes.
use pfuzzer.Base.{
  ℕ, zero, suc, ◌+◌, ◌-◌, ◌/◌, ◌%◌, ◌^◌, ◌≤◌, ◌<◌, ◌≡◌, refl, ltb, ◌==◌, ◌||◌, Bool, true, false,
  List, [], ◌∷◌, ◌++◌, none, length, replicate, map, All, arith, ap, sym, ◌∙◌, Bool-cases, inl, inr,
  length-append, All-append, ltb→lt, le→ltb_false,
}
use mathlib.Core.List.{append-nil}
use pfuzzer.Streams.{lines_of, read_number, print_number, print_digits, got}
use pfuzzer.Streams.Laws.{IsLine, lines_of-append, read_number-print_number}
use pfuzzer.Merge.{MergeFile}
use pfuzzer.Merge.Control.{
  parsed, ◌>>=◌, blank_file, read_names, parse_lines, finish, resize, parse_files, parse_sized,
  parse, extract_or, is_known, files_to_use, unlines, write_new_control_file,
}

-- A file of which only the name is known.
abbrev pub named_file : List ℕ → MergeFile
named_file n = record { name = n; size = 0; features = []; cov = [] }

pub lines_of-unlines : (ls : List (List ℕ)) → All IsLine ls → lines_of (unlines ls) ≡ ls
unfolding unlines lines_of
lines_of-unlines [] h = refl
lines_of-unlines (l ∷ ls) (p, h) =
    lines_of-append l (unlines ls) p ∙ ap (λ r. l ∷ r) (lines_of-unlines ls h)

print_digits-IsLine : (f n : ℕ) → IsLine (print_digits f n)
unfolding print_digits
print_digits-IsLine zero n = tt
print_digits-IsLine (suc f) n = elim (Bool-cases (ltb n 10)) [
  | inl e ↦ let l = ltb→lt n 10 e in rw e (ground arith, tt)
  | inr e ↦ rw e (
      All-append _ (print_digits f (n / 10)) ((b'0' + n % 10) ∷ []) (print_digits-IsLine f (n / 10))
        (ground arith, tt))
]

pub print_number-IsLine : (n : ℕ) → IsLine (print_number n)
unfolding print_number
print_number-IsLine n = print_digits-IsLine (suc n) n

extract_or-print_number : (old n : ℕ) → n < 2 ^ 64 → extract_or 64 old (print_number n) ≡ n
unfolding extract_or
extract_or-print_number old n h =
    let e : read_number 64 (print_number n) ≡ got n [] =
      ap (read_number 64) (sym (append-nil (print_number n)))
      ∙ read_number-print_number 64 n [] h tt in
    rw (e, extract_or) refl

blanks : (ns : List (List ℕ)) → resize (length ns) [] ≡ replicate (length ns) blank_file
unfolding resize
blanks [] = refl
blanks (n ∷ ns) =
    let e : suc (length ns) - 0 ≡ suc (length ns) = omega arith in
    ap (λ k. replicate k blank_file) e

read_names-all :
    (ns : List (List ℕ))
    → read_names (replicate (length ns) blank_file) ns ≡ parsed (map named_file ns, [])
unfolding read_names
read_names-all [] = refl
read_names-all (n ∷ ns) =
    ap (λ o. o >>= λ (gs, rest). parsed (named_file n ∷ gs, rest)) (read_names-all ns)

pub files_to_use-IsLine :
    (known : List MergeFile) (ns : List (List ℕ))
    → All IsLine ns
    → All IsLine (files_to_use known ns)
unfolding files_to_use
files_to_use-IsLine known [] h = tt
files_to_use-IsLine known (n ∷ ns) (p, h) = elim (Bool-cases (is_known n known)) [
  | inl e ↦ rw e (files_to_use-IsLine known ns h)
  | inr e ↦ rw e (p, files_to_use-IsLine known ns h)
]

files_written :
    (c : Bool) (k : ℕ) (used : List (List ℕ))
    → parse_files c (length used) k [] used
      ≡ parsed (record {
        files = map named_file used;
        num_files_in_first_corpus = k;
        first_not_processed_file = 0;
        last_failure = [];
      })
unfolding parse_files parse_lines finish
files_written c k used =
    ap
      (λ fs. read_names fs used >>= λ (files, rest).
        parse_lines c rest
          (record { files = files; expected = 0; last_seen = none; have_ft = true; pcs = [] })
        >>= λ s. finish k s)
      (blanks used)
    ∙ rw (read_names-all used) refl

sized_written :
    (c : Bool) (k : ℕ) (used : List (List ℕ))
    → 0 < length used
    → length used ≤ 10000000
    → k ≤ length used
    → parse_sized c (length used) k [] used
      ≡ parsed (record {
        files = map named_file used;
        num_files_in_first_corpus = k;
        first_not_processed_file = 0;
        last_failure = [];
      })
unfolding parse_sized
sized_written c k used p q r =
    let nz : (length used == 0 || ltb 10000000 (length used)) ≡ false = ground (arith, p, q) in
    rw (nz, le→ltb_false (length used) k r) (files_written c k used)

pub parse_written :
    (c : Bool) (k : ℕ) (used : List (List ℕ))
    → 0 < length used
    → length used ≤ 10000000
    → k ≤ length used
    → parse c [] (print_number (length used) ∷ print_number k ∷ used)
      ≡ parsed (record {
        files = map named_file used;
        num_files_in_first_corpus = k;
        first_not_processed_file = 0;
        last_failure = [];
      })
unfolding parse
parse_written c k used p q r =
    let e : extract_or 64 0 (print_number (length used)) ≡ length used =
      extract_or-print_number 0 (length used) (omega arith) in
    let f : extract_or 64 (length used + 1) (print_number k) ≡ k =
      extract_or-print_number (length used + 1) k (omega arith) in
    ap (λ v. parse_sized c v (extract_or 64 (v + 1) (print_number k)) [] used) e
    ∙ ap (λ v. parse_sized c (length used) v [] used) f
    ∙ sized_written c k used p q r

-- `Parse` accepts the control file that `WriteNewControlFile` writes for corpora whose names have
-- no line break, if the number of files that are not known is between 1 and 10 million: it has
-- these files in order, the first corpus is its part of them, and none is processed.
pub parse-write_new_control_file :
    (c : Bool) (old_corpus new_corpus : List (List ℕ)) (known : List MergeFile)
    → All IsLine old_corpus
    → All IsLine new_corpus
    → 0 < (write_new_control_file old_corpus new_corpus known).1
    → (write_new_control_file old_corpus new_corpus known).1 ≤ 10000000
    → parse c [] (lines_of (write_new_control_file old_corpus new_corpus known).0)
      ≡ parsed (record {
        files = map named_file (files_to_use known old_corpus ++ files_to_use known new_corpus);
        num_files_in_first_corpus = length (files_to_use known old_corpus);
        first_not_processed_file = 0;
        last_failure = [];
      })
unfolding write_new_control_file
parse-write_new_control_file c old_corpus new_corpus known ho hn p q =
    let from_old = files_to_use known old_corpus in
    let used = from_old ++ files_to_use known new_corpus in
    ap (parse c []) (
      lines_of-unlines _ (
        print_number-IsLine (length used),
        (
          print_number-IsLine (length from_old),
          All-append IsLine from_old _ (files_to_use-IsLine known old_corpus ho)
              (files_to_use-IsLine known new_corpus hn),
        ),
      ))
    ∙ parse_written c (length from_old) used p q
        (omega (arith, length-append from_old (files_to_use known new_corpus)))
