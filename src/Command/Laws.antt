-- ===== src/Command/Laws.antt =====
-- The operations of `Command` in FuzzerCommand.h: what they find after changes, and that they
-- leave the remaining arguments alone.
use pfuzzer.Base.{
  suc, ◌+◌, ◌≡◌, refl, ◌||◌, Bool, true, false, if◌then◌else◌, List, [], ◌∷◌, ◌++◌, some, length,
  take, drop, All, arith, ap, ap₂, ◌∙◌, subst, All-append,
}
use mathlib.Core.List.{append-nil}
use pfuzzer.Base.Slices.{take_all, take-append-drop, take-append, drop-append}
use pfuzzer.Base.Bytes.{bytes_eq, bytes_eq_refl}
use pfuzzer.Command.{
  Text, Command, is_end, end_mutable_args, any_of, remove_if, find_if, mutable_args, remaining_args,
  has_argument, add_argument, remove_argument, flag_prefix, is_match, has_flag, get_flag_value,
  value_after, add_flag, remove_flag,
}

-- No argument ends the mutable ones.
abbrev pub IsMutable : Text → Type 0
IsMutable a = is_end a ≡ false

before_end-IsMutable : (xs : List Text) → All IsMutable (take (end_mutable_args xs) xs)
unfolding end_mutable_args
before_end-IsMutable [] = tt
before_end-IsMutable (a ∷ xs) = chosen (is_end a) refl (before_end-IsMutable xs)
  where
    chosen :
        (b : Bool)
        → is_end a ≡ b
        → All IsMutable (take (end_mutable_args xs) xs)
        → All IsMutable (take (if b then 0 else suc (end_mutable_args xs)) (a ∷ xs))
    chosen true e h = tt
    chosen false e h = (e, h)

end-drop : (xs : List Text) → end_mutable_args (drop (end_mutable_args xs) xs) ≡ 0
unfolding end_mutable_args
end-drop [] = refl
end-drop (a ∷ xs) = chosen (is_end a) refl (end-drop xs)
  where
    chosen :
        (b : Bool)
        → is_end a ≡ b
        → end_mutable_args (drop (end_mutable_args xs) xs) ≡ 0
        → end_mutable_args (drop (if b then 0 else suc (end_mutable_args xs)) (a ∷ xs)) ≡ 0
    chosen true e h = rw (e, end_mutable_args) refl
    chosen false e h = h

end-append :
    (xs ys : List Text)
    → All IsMutable xs
    → end_mutable_args (xs ++ ys) ≡ length xs + end_mutable_args ys
unfolding end_mutable_args
end-append [] ys h = omega arith
end-append (a ∷ xs) ys (e, h) = rw (e, end_mutable_args) (omega (arith, end-append xs ys h))

take_exact : {A : Type 0} (xs ys : List A) → take (length xs) (xs ++ ys) ≡ xs
take_exact xs ys =
    take-append (length xs) xs ys (omega arith) ∙ take_all (length xs) xs (omega arith)

-- A command whose mutable arguments are `m`, and whose others are those of `c`.
abbrev HasParts : List Text → Command → Command → Type 0
HasParts m c c' = (mutable_args c' ≡ m) × (remaining_args c' ≡ remaining_args c)

parts_lem :
    (c : Command) (m : List Text)
    → All IsMutable m
    → HasParts m c (record c { args = m ++ remaining_args c })
unfolding mutable_args remaining_args
parts_lem c m h =
    let tail : List Text = drop (end_mutable_args c.args) c.args in
    let e : end_mutable_args (m ++ tail) ≡ length m =
      omega (arith, end-append m tail h, end-drop c.args) in
    rw e (take_exact m tail, drop-append (length m) m tail refl)

any_of-append :
    (p : Text → Bool) (xs ys : List Text) → any_of p (xs ++ ys) ≡ (any_of p xs || any_of p ys)
unfolding any_of
any_of-append p [] ys = refl
any_of-append p (x ∷ xs) ys = ground (arith, any_of-append p xs ys)

any_of-remove_if : (p : Text → Bool) (xs : List Text) → any_of p (remove_if p xs) ≡ false
unfolding any_of remove_if
any_of-remove_if p [] = refl
any_of-remove_if p (x ∷ xs) = ground (arith, any_of-remove_if p xs)

-- Removing changes nothing where there is nothing to remove.
remove_if_none : (p : Text → Bool) (xs : List Text) → any_of p xs ≡ false → remove_if p xs ≡ xs
unfolding any_of remove_if
remove_if_none p [] h = refl
remove_if_none p (x ∷ xs) h = ground (arith, remove_if_none p xs)

remove_if-append :
    (p : Text → Bool) (xs ys : List Text)
    → remove_if p (xs ++ ys) ≡ remove_if p xs ++ remove_if p ys
unfolding remove_if
remove_if-append p [] ys = refl
remove_if-append p (x ∷ xs) ys = ground (arith, remove_if-append p xs ys)

remove_if-IsMutable :
    (p : Text → Bool) (xs : List Text) → All IsMutable xs → All IsMutable (remove_if p xs)
unfolding remove_if
remove_if-IsMutable p [] h = tt
remove_if-IsMutable p (x ∷ xs) (e, h) = chosen (p x) (remove_if-IsMutable p xs h)
  where
    chosen :
        (b : Bool)
        → All IsMutable (remove_if p xs)
        → All IsMutable (if b then remove_if p xs else x ∷ remove_if p xs)
    chosen true r = r
    chosen false r = (e, r)

mutable : (c : Command) → All IsMutable (mutable_args c)
unfolding mutable_args
mutable c = before_end-IsMutable c.args

all_args : (c : Command) → mutable_args c ++ remaining_args c ≡ c.args
unfolding mutable_args remaining_args
all_args c = take-append-drop (end_mutable_args c.args) c.args

append_assoc : (xs ys zs : List Text) → (xs ++ ys) ++ zs ≡ xs ++ (ys ++ zs)
append_assoc [] ys zs = refl
append_assoc (x ∷ xs) ys zs = ap (λ l. x ∷ l) (append_assoc xs ys zs)

add_argument-parts :
    (arg : Text) (c : Command)
    → IsMutable arg
    → HasParts (mutable_args c ++ (arg ∷ [])) c (add_argument arg c)
unfolding add_argument
add_argument-parts arg c h =
    subst (λ as'. HasParts (mutable_args c ++ (arg ∷ [])) c (record c { args = as' }))
      (append_assoc (mutable_args c) (arg ∷ []) (remaining_args c))
      (parts_lem c (mutable_args c ++ (arg ∷ []))
        (All-append IsMutable (mutable_args c) (arg ∷ []) (mutable c) (h, tt)))

-- After an argument was added that does not end the mutable ones, it is present, and of the
-- others those that were.
pub has_argument-add_argument :
    (arg other : Text) (c : Command)
    → IsMutable arg
    → has_argument other (add_argument arg c) ≡ (has_argument other c || bytes_eq arg other)
unfolding has_argument any_of
has_argument-add_argument arg other c h =
    ap (any_of (λ a. bytes_eq a other)) (add_argument-parts arg c h).0
    ∙ any_of-append (λ a. bytes_eq a other) (mutable_args c) (arg ∷ [])
    ∙ ground arith

-- An argument is not present after it was removed, however often it was there.
pub has_argument-remove_argument :
    (arg : Text) (c : Command) → has_argument arg (remove_argument arg c) ≡ false
unfolding has_argument remove_argument
has_argument-remove_argument arg c =
    let p : Text → Bool = λ a. bytes_eq a arg in
    ap (any_of p)
      (parts_lem c (remove_if p (mutable_args c))
        (remove_if-IsMutable p (mutable_args c) (mutable c))).0
    ∙ any_of-remove_if p (mutable_args c)

-- A flag is not set after it was removed, however often it was set.
pub has_flag-remove_flag : (flag : Text) (c : Command) → has_flag flag (remove_flag flag c) ≡ false
unfolding has_flag remove_flag
has_flag-remove_flag flag c =
    let p : Text → Bool = is_match (flag_prefix flag) in
    ap (any_of p)
      (parts_lem c (remove_if p (mutable_args c))
        (remove_if-IsMutable p (mutable_args c) (mutable c))).0
    ∙ any_of-remove_if p (mutable_args c)

-- Adding an argument that is not present, and that does not end the mutable ones, and removing it
-- again gives the command back.
pub remove_argument-add_argument :
    (arg : Text) (c : Command)
    → IsMutable arg
    → has_argument arg c ≡ false
    → remove_argument arg (add_argument arg c) ≡ c
unfolding has_argument remove_argument add_argument
remove_argument-add_argument arg c h absent =
    ap (λ args. record c { args = args })
      (ap₂ (λ m r. remove_if p m ++ r) parts.0 parts.1
        ∙ ap (λ m. m ++ remaining_args c) removed
        ∙ all_args c)
  where
    p : Text → Bool
    p = λ a. bytes_eq a arg

    parts : HasParts (mutable_args c ++ (arg ∷ [])) c (add_argument arg c)
    parts = add_argument-parts arg c h

    last : remove_if p (arg ∷ []) ≡ []
    last = rw (bytes_eq_refl arg, remove_if) refl

    removed : remove_if p (mutable_args c ++ (arg ∷ [])) ≡ mutable_args c
    removed =
        remove_if-append p (mutable_args c) (arg ∷ [])
        ∙ ap₂ ◌++◌ (remove_if_none p (mutable_args c) absent) last
        ∙ append-nil (mutable_args c)

-- Adding an argument that does not end the mutable ones, removing an argument, and removing a
-- flag leave the arguments from `-ignore_remaining_args=1` on as they are.
pub remaining_args-unchanged :
    (arg flag : Text) (c : Command)
    → IsMutable arg
    → (remaining_args (add_argument arg c) ≡ remaining_args c)
      × (remaining_args (remove_argument arg c) ≡ remaining_args c)
      × (remaining_args (remove_flag flag c) ≡ remaining_args c)
unfolding remove_argument remove_flag
remaining_args-unchanged arg flag c h = (
  (add_argument-parts arg c h).1,
  (parts_lem c _ (remove_if-IsMutable (λ a. bytes_eq a arg) (mutable_args c) (mutable c))).1,
  (parts_lem c _
      (remove_if-IsMutable (is_match (flag_prefix flag)) (mutable_args c) (mutable c))).1,
)

find_if-append :
    (p : Text → Bool) (xs : List Text) (y : Text)
    → any_of p xs ≡ false
    → p y ≡ true
    → find_if p (xs ++ (y ∷ [])) ≡ some y
unfolding any_of find_if
find_if-append p [] y h e = ground arith
find_if-append p (x ∷ xs) y h e = ground (arith, find_if-append p xs y)

is_match-append : (prefix value : Text) → is_match prefix (prefix ++ value) ≡ true
unfolding is_match
is_match-append prefix value = ap (bytes_eq prefix) (take_exact prefix value) ∙ bytes_eq_refl prefix

-- The value of a flag that was not set, and that does not end the mutable arguments, is the one
-- that `addFlag` gave it.
pub get_flag_value-add_flag :
    (flag value : Text) (c : Command)
    → IsMutable (flag_prefix flag ++ value)
    → has_flag flag c ≡ false
    → get_flag_value flag (add_flag flag value c) ≡ value
unfolding get_flag_value add_flag has_flag value_after
get_flag_value-add_flag flag value c h absent =
    let prefix : Text = flag_prefix flag in
    ap (λ m. value_after prefix (find_if (is_match prefix) m))
      (add_argument-parts (prefix ++ value) c h).0
    ∙ ap (value_after prefix) (
        find_if-append (is_match prefix) (mutable_args c) (prefix ++ value) absent
          (is_match-append prefix value))
    ∙ drop-append (length prefix) prefix value refl
