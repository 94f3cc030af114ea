-- ===== src/Merge/Control/Laws.antt =====
-- What `Merger::Parse` of FuzzerMerge.cpp accepts.
use pfuzzer.Base.{
  ℕ, suc, ◌≤◌, ◌<◌, ◌≡◌, refl, ◌==◌, Bool, true, false, if◌then◌else◌, List, [], ◌∷◌, ◌++◌, Option,
  none, some, length, get_elem?, arith, ap, sym, ◌∙◌, length-set, get_elem?-some,
}
use mathlib.Core.Path.{fun_ext}
use pfuzzer.Streams.{Extract, got, nothing, bad, read_word, read_number}
use pfuzzer.Merge.{MergeFile}
use pfuzzer.Merge.Control.{
  Outcome, refused, faulted, parsed, ◌>>=◌, Progress, read_names, parse_started, parse_ft,
  parse_cov, parse_marker, parse_line, parse_lines, is_seen,
}

-- The text is accepted, with a result of a kind.
pub data Parses {A : Type 0} (Q : A → Type 0) : Outcome A → Type 0 where
  parses : (a : A) → Q a → Parses Q (parsed a)

pub bind-Parses :
    {A B : Type 0} (Q : A → Type 0) (R : B → Type 0) (m : Outcome A) (f : A → Outcome B)
    → Parses Q m
    → ((a : A) → Q a → Parses R (f a))
    → Parses R (m >>= f)
bind-Parses Q R refused f p k = elim p [ ]
bind-Parses Q R faulted f p k = elim p [ ]
bind-Parses Q R (parsed a) f (parses _ q) k = k a q

pub Parses-mono :
    {A : Type 0} (Q R : A → Type 0) (o : Outcome A)
    → Parses Q o
    → ((a : A) → Q a → R a)
    → Parses R o
Parses-mono Q R refused p k = elim p [ ]
Parses-mono Q R faulted p k = elim p [ ]
Parses-mono Q R (parsed a) (parses _ q) k = parses a (k a q)

-- A successful bind.
pub >>=-eq-parsed :
    {A B : Type 0} (m : Outcome A) (f : A → Outcome B) {b : B}
    → (m >>= f) ≡ parsed b
    → (a : A) × (m ≡ parsed a) × (f a ≡ parsed b)
>>=-eq-parsed refused f h = cc
>>=-eq-parsed faulted f h = cc
>>=-eq-parsed (parsed a) f h = (a, refl, h)

pub >>=_assoc :
    {A B C : Type 0} (m : Outcome A) (f : A → Outcome B) (g : B → Outcome C)
    → ((m >>= f) >>= g) ≡ (m >>= λ a. f a >>= g)
>>=_assoc refused f g = refl
>>=_assoc faulted f g = refl
>>=_assoc (parsed a) f g = refl

pub parse_lines-append :
    (c : Bool) (ls ms : List (List ℕ)) (s : Progress)
    → parse_lines c (ls ++ ms) s ≡ (parse_lines c ls s >>= λ t. parse_lines c ms t)
unfolding parse_lines
parse_lines-append c [] ms s = refl
parse_lines-append c (l ∷ ls) ms s =
    let next : (t : Progress)
        → parse_lines c (ls ++ ms) t ≡ (parse_lines c ls t >>= λ u. parse_lines c ms u) =
      λ t. parse_lines-append c ls ms t in
    ap (λ f. parse_line c l s >>= f) (fun_ext next)
    ∙ sym (>>=_assoc (parse_line c l s) (λ t. parse_lines c ls t) (λ u. parse_lines c ms u))

-- What holds of the loop's variables, for `k` files.
pub record IsProgress (k : ℕ) (s : Progress) : Type 0 where
  pub size : length s.files ≡ k
  pub bounded : s.expected ≤ k
  pub seen : (j : ℕ) → s.last_seen ≡ some j → j < k

module _ (k : ℕ) where
  -- An outcome that keeps the invariant, where the text is accepted.
  pub data Keeps : Outcome Progress → Type 0 where
    keeps_refused : Keeps refused
    keeps_faulted : Keeps faulted
    keeps : (s : Progress) → IsProgress k s → Keeps (parsed s)

  if-Keeps : (b : Bool) (x y : Outcome Progress) → Keeps x → Keeps y → Keeps (if b then x else y)
  if-Keeps true x y p q = p
  if-Keeps false x y p q = q

  found-Keeps :
      (o : Option MergeFile) (f : MergeFile → Outcome Progress)
      → ((a : MergeFile) → o ≡ some a → Keeps (f a))
      → Keeps (elim o [ none ↦ faulted | some a ↦ f a ])
  found-Keeps none f k = keeps_faulted
  found-Keeps (some a) f k = k a refl

  parse_started-Keeps :
      (n : ℕ) (rest : List ℕ) (s : Progress) → IsProgress k s → Keeps (parse_started n rest s)
  unfolding parse_started
  parse_started-Keeps n rest s h =
      if-Keeps (s.expected == n) _ _
        (found-Keeps (get_elem? s.files s.expected) _ (λ f at.
          let l = get_elem?-some s.files s.expected f at in
          keeps _ (record {
            size = length-set s.files s.expected _ ∙ h.size;
            bounded = omega (arith, h.size);
            seen = λ j e. let same : s.expected ≡ j = cc (e) in omega (arith, h.size);
          })))
        keeps_refused

  parse_ft-Keeps :
      (c : Bool) (n : ℕ) (rest : List ℕ) (s : Progress)
      → IsProgress k s
      → Keeps (parse_ft c n rest s)
  unfolding parse_ft
  parse_ft-Keeps c n rest s h =
      if-Keeps (is_seen n s.last_seen) _ _
        (if-Keeps c _ _
          (found-Keeps (get_elem? s.files n) _ (λ f at. keeps _ (record {
            size = length-set s.files n _ ∙ h.size;
            bounded = h.bounded;
            seen = h.seen;
          })))
          (keeps _ (record { size = h.size; bounded = h.bounded; seen = h.seen })))
        keeps_refused

  parse_cov-Keeps :
      (c : Bool) (n : ℕ) (rest : List ℕ) (s : Progress)
      → IsProgress k s
      → Keeps (parse_cov c n rest s)
  unfolding parse_cov
  parse_cov-Keeps c n rest s h =
      if-Keeps (is_seen n s.last_seen) _ _
        (if-Keeps c _ _
          (found-Keeps (get_elem? s.files n) _ (λ f at. keeps _ (record {
            size = length-set s.files n _ ∙ h.size;
            bounded = h.bounded;
            seen = h.seen;
          })))
          (keeps s h))
        keeps_refused

  parse_marker-Keeps :
      (c : Bool) (marker : List ℕ) (n : ℕ) (rest : List ℕ) (s : Progress)
      → IsProgress k s
      → Keeps (parse_marker c marker n rest s)
  unfolding parse_marker
  parse_marker-Keeps c marker n rest s h = if-Keeps _ _ _ (parse_started-Keeps n rest s h) (
      if-Keeps _ _ _ (parse_ft-Keeps c n rest s h)
        (if-Keeps _ _ _ (parse_cov-Keeps c n rest s h) keeps_refused))

  number-Keeps :
      (c : Bool) (marker : List ℕ) (s : Progress) (x : Extract)
      → IsProgress k s
      → Keeps (elim x [
        | got n rest ↦ parse_marker c marker n rest s
        | nothing ↦ refused
        | bad n ↦ refused
      ])
  number-Keeps c marker s (got n rest) h = parse_marker-Keeps c marker n rest s h
  number-Keeps c marker s nothing h = keeps_refused
  number-Keeps c marker s (bad n) h = keeps_refused

  parse_line-Keeps :
      (c : Bool) (l : List ℕ) (s : Progress) → IsProgress k s → Keeps (parse_line c l s)
  unfolding parse_line
  parse_line-Keeps c l s h = word (read_word l)
    where
      word :
          (o : Option (List ℕ × List ℕ))
          → Keeps (elim o [
            | none ↦ refused
            | some (marker, r) ↦ elim (read_number 32 r) [
              | got n rest ↦ parse_marker c marker n rest s
              | nothing ↦ refused
              | bad n ↦ refused
            ]
          ])
      word none = keeps_refused
      word (some (marker, r)) = number-Keeps c marker s (read_number 32 r) h

  bind-Keeps :
      (o : Outcome Progress) (f : Progress → Outcome Progress)
      → Keeps o
      → ((t : Progress) → IsProgress k t → Keeps (f t))
      → Keeps (o >>= f)
  bind-Keeps refused f q g = keeps_refused
  bind-Keeps faulted f q g = keeps_faulted
  bind-Keeps (parsed t) f (keeps _ q) g = g t q

  pub parse_lines-Keeps :
      (c : Bool) (ls : List (List ℕ)) (s : Progress) → IsProgress k s → Keeps (parse_lines c ls s)
  unfolding parse_lines
  parse_lines-Keeps c [] s h = keeps s h
  parse_lines-Keeps c (l ∷ ls) s h =
      bind-Keeps (parse_line c l s) _ (parse_line-Keeps c l s h) (λ t q. parse_lines-Keeps c ls t q)

-- The names are read from the front, and the other lines stay.
pub data Named (fs : List MergeFile) (ls : List (List ℕ))
    : Outcome (List MergeFile × List (List ℕ)) → Type 0 where
  named_refused : Named fs ls refused
  named :
      (gs : List MergeFile) (rest : List (List ℕ))
      → length gs ≡ length fs
      → ((more : List (List ℕ)) → read_names fs (ls ++ more) ≡ parsed (gs, rest ++ more))
      → Named fs ls (parsed (gs, rest))

read_name :
    (f : MergeFile) (fs : List MergeFile) (l : List ℕ) (ls : List (List ℕ))
    (o : Outcome (List MergeFile × List (List ℕ)))
    → Named fs ls o
    → Named (f ∷ fs) (l ∷ ls) (o >>= λ (gs, rest). parsed (record f { name = l } ∷ gs, rest))
unfolding read_names
read_name f fs l ls refused q = named_refused
read_name f fs l ls faulted q = elim q [ ]
read_name f fs l ls (parsed (gs, rest)) (named _ _ n e) =
    named (record f { name = l } ∷ gs) rest (ap suc n) (λ more. rw (e more, read_names) refl)

pub read_names-Named : (fs : List MergeFile) (ls : List (List ℕ)) → Named fs ls (read_names fs ls)
unfolding read_names
read_names-Named [] ls = named [] ls refl (λ more. refl)
read_names-Named (f ∷ fs) [] = named_refused
read_names-Named (f ∷ fs) (l ∷ ls) = read_name f fs l ls (read_names fs ls) (read_names-Named fs ls)
