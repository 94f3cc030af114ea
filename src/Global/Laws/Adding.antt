-- ===== src/Global/Laws/Adding.antt =====
-- `AddFeature` and `AddToCorpus` of FuzzerFork.h keep the invariant of the global corpus.
use pfuzzer.Base.{
  get_elem?-some, ℕ, zero, suc, ◌+◌, ◌-◌, ◌%◌, ◌^◌, ◌≤◌, ◌<◌, ◌≡◌, refl, ◌≢◌, ◌⊎◌, inl, inr, ltb,
  ◌==◌, ◌&&◌, not, Bool, true, false, if◌then◌else◌, List, [], ◌∷◌, some, length, get_elem?, set,
  tests, arith, ap, ap₂, sym, ◌∙◌, subst, ==_refl, length-set, lt→ltb,
}
use native.Mathlib.Decide.{ℕ_discrete}
use pfuzzer.Global.{feature_set_size, Seed, GlobalCorpus, put, lose_feature, delete_input, own}
use pfuzzer.Global.Laws.{one_if, count, count-change, owns, owned, dead}

pub count-pos : (n i : ℕ) (p : ℕ → Bool) → i < n → p i ≡ true → 0 < count n p
unfolding count
count-pos zero i p l h = absurd (omega arith)
count-pos (suc n) i p l h = elim (ℕ_discrete n i) [
  | yes e ↦ omega (arith, ap one_if (ap p e ∙ h))
  | no d ↦ omega (arith, count-pos n i p (omega arith) h)
]

pub some_seed : {s t : Seed} → some s ≡ some t → s ≡ t
some_seed h = cc

get_elem?-set_cases :
    (xs : List Seed) (i k : ℕ) (v t : Seed)
    → get_elem? (set xs i v) k ≡ some t
    → ((k ≡ i) × (t ≡ v)) ⊎ ((k ≢ i) × (get_elem? xs k ≡ some t))
get_elem?-set_cases [] i k v t h = absurd (cc)
get_elem?-set_cases (x ∷ xs) zero zero v t h = inl (refl, sym (some_seed h))
get_elem?-set_cases (x ∷ xs) zero (suc k) v t h = inr ((λ e. absurd (omega arith)), h)
get_elem?-set_cases (x ∷ xs) (suc i) zero v t h = inr ((λ e. absurd (omega arith)), h)
get_elem?-set_cases (x ∷ xs) (suc i) (suc k) v t h = elim (get_elem?-set_cases xs i k v t h) [
  | inl (e, s) ↦ inl (ap suc e, s)
  | inr (d, g) ↦ inr ((λ e. d (omega arith)), g)
]

dead-set :
    (xs : List Seed) (i : ℕ) (s t : Seed)
    → get_elem? xs i ≡ some s
    → dead (set xs i t) + one_if (not s.live) ≡ dead xs + one_if (not t.live)
unfolding dead
dead-set [] i s t h = absurd (cc)
dead-set (x ∷ xs) zero s t h = omega (arith, ap (λ (y : Seed). one_if (not y.live)) (some_seed h))
dead-set (x ∷ xs) (suc i) s t h = omega (arith, dead-set xs i s t h)

one_if_le : (b : Bool) → one_if b ≤ 1
one_if_le true = omega arith
one_if_le false = omega arith

dead-le : (xs : List Seed) → dead xs ≤ length xs
unfolding dead
dead-le [] = omega arith
dead-le (x ∷ xs) = omega (arith, dead-le xs, one_if_le (not x.live))

-- The invariant while the features of an input of `new_size` bytes are added, which makes
-- `base + k` updates once this input is to have `k` features.
pub record IsPending (new_size base : ℕ) (g : GlobalCorpus) : Type 0 where
  pub few : length g.inputs < 2 ^ 32 - 1
  pub owners :
      (j : ℕ) → j < feature_set_size → 0 < g.input_sizes j → g.smallest_element j ≤ length g.inputs
  pub sizes :
      (j : ℕ)
      → j < feature_set_size
      → 0 < g.input_sizes j
      → g.smallest_element j ≡ length g.inputs
      → g.input_sizes j ≡ new_size
  pub counts : (k : ℕ) (s : Seed) → get_elem? g.inputs k ≡ some s → s.num_features ≡ owned g k
  pub alive : (k : ℕ) (s : Seed) → get_elem? g.inputs k ≡ some s → s.live ≡ ltb 0 s.num_features
  pub deleted : g.delete_nums ≡ dead g.inputs
  pub updated : g.num_updated_features ≡ base + owned g (length g.inputs)

put_same : (f : ℕ → ℕ) (i v : ℕ) → put f i v i ≡ v
unfolding put
put_same f i v = rw (==_refl i) refl

put_other : (f : ℕ → ℕ) (i v j : ℕ) → j ≢ i → put f i v j ≡ f j
unfolding put
put_other f i v j d = ground arith

pub not_equal : (a b : ℕ) → a ≢ b → (a == b) ≡ false
not_equal a b h = ground arith

owned-pos : (g : GlobalCorpus) (k i : ℕ) → i < feature_set_size → owns g k i ≡ true → 0 < owned g k
unfolding owned
owned-pos g k i small h = count-pos feature_set_size i (owns g k) small h

module _ (new_size : ℕ) (pos : 0 < new_size) (i : ℕ) (small : i < feature_set_size) where
  -- The next input gains the feature, and the one that had it loses it.
  owned-own :
      (g : GlobalCorpus) (k : ℕ)
      → length g.inputs < 2 ^ 32 - 1
      → owned (own i new_size g) k + one_if (owns g k i) ≡ owned g k + one_if (length g.inputs == k)
  unfolding owned own
  owned-own g k few =
      let e = count-change feature_set_size i (owns (own i new_size g) k) (owns g k) small (λ j d.
        ap₂ (λ x y. ltb 0 x && (y == k)) (put_other g.input_sizes i new_size j d)
          (put_other g.smallest_element i (length g.inputs % 2 ^ 32) j d)) in
      e
      ∙ ap (λ b. count feature_set_size (owns g k) + one_if b)
          (ap₂ (λ x y. ltb 0 x && (y == k)) (put_same g.input_sizes i new_size)
              (put_same g.smallest_element i (length g.inputs % 2 ^ 32) ∙ omega arith)
            ∙ ap (λ b. b && (length g.inputs == k)) (lt→ltb 0 new_size pos))

  -- What is known once the feature was taken from the input that had it.
  pub record IsReleased (g : GlobalCorpus) (xs : List Seed) (delete_nums : ℕ) : Type 0 where
    same_length : length xs ≡ length g.inputs
    counts :
        (k : ℕ) (s : Seed)
        → get_elem? xs k ≡ some s
        → s.num_features + one_if (owns g k i) ≡ owned g k
    alive : (k : ℕ) (s : Seed) → get_elem? xs k ≡ some s → s.live ≡ ltb 0 s.num_features
    deleted : delete_nums ≡ dead xs
    not_next : owns g (length g.inputs) i ≡ false

  pub own-IsPending :
      (base : ℕ) (g : GlobalCorpus) (xs : List Seed) (delete_nums added : ℕ)
      → IsPending new_size base g
      → IsReleased g xs delete_nums
      → g.num_updated_features < 2 ^ 32 - 1
      → IsPending new_size base (
          own i new_size
            (record g { inputs = xs; delete_nums = delete_nums; num_added_features = added }))
  unfolding own owned
  own-IsPending base g xs delete_nums added v r room =
      let g1 : GlobalCorpus = record g {
        inputs = xs;
        delete_nums = delete_nums;
        num_added_features = added;
      } in
      let few : length xs < 2 ^ 32 - 1 = omega (arith, v.few, r.same_length) in
      record {
        few = few;
        owners = owners;
        sizes = sizes;
        counts =
            λ k s h. omega (arith, r.counts k s h, owned-own g1 k few, ap one_if (before k s h));
        alive = r.alive;
        deleted = r.deleted;
        updated = omega (
          arith,
          v.updated,
          room,
          owned-own g1 (length xs) few,
          ap one_if (==_refl (length xs)),
          ap (λ n. one_if (owns g n i)) r.same_length,
          ap one_if r.not_next,
          ap (owned g) r.same_length,
        );
      }
    where
      before : (k : ℕ) (s : Seed) → get_elem? xs k ≡ some s → (length xs == k) ≡ false
      before k s h = ground (arith, get_elem?-some xs k s h)

      owners :
          (j : ℕ)
          → j < feature_set_size
          → 0 < put g.input_sizes i new_size j
          → put g.smallest_element i (length xs % 2 ^ 32) j ≤ length xs
      owners j m h = elim (ℕ_discrete j i) [
        | yes e ↦ omega (
          arith,
          ap (put g.smallest_element i (length xs % 2 ^ 32)) e
              ∙ put_same g.smallest_element i (length xs % 2 ^ 32),
        )
        | no d ↦ omega (
          arith,
          put_other g.smallest_element i (length xs % 2 ^ 32) j d,
          r.same_length,
          v.owners j m (subst (λ n. 0 < n) (put_other g.input_sizes i new_size j d) h),
        )
      ]

      sizes :
          (j : ℕ)
          → j < feature_set_size
          → 0 < put g.input_sizes i new_size j
          → put g.smallest_element i (length xs % 2 ^ 32) j ≡ length xs
          → put g.input_sizes i new_size j ≡ new_size
      sizes j m h e = elim (ℕ_discrete j i) [
        | yes s ↦ ap (put g.input_sizes i new_size) s ∙ put_same g.input_sizes i new_size
        | no d ↦
            put_other g.input_sizes i new_size j d
            ∙ v.sizes j m (subst (λ n. 0 < n) (put_other g.input_sizes i new_size j d) h) (
                sym (put_other g.smallest_element i (length xs % 2 ^ 32) j d) ∙ (e ∙ r.same_length))
      ]

  -- A feature that no input has.
  pub new-IsReleased :
      (base : ℕ) (g : GlobalCorpus)
      → IsPending new_size base g
      → g.input_sizes i ≡ 0
      → IsReleased g g.inputs g.delete_nums
  new-IsReleased base g v e = record {
    same_length = refl;
    counts = λ k s h. omega (arith, v.counts k s h, ap one_if (nobody k));
    alive = v.alive;
    deleted = v.deleted;
    not_next = nobody (length g.inputs);
  }
    where
      nobody : (k : ℕ) → owns g k i ≡ false
      nobody k = ap (λ n. ltb 0 n && (g.smallest_element i == k)) e

  -- A feature that a larger input has.
  pub lost-IsReleased :
      (base : ℕ) (g : GlobalCorpus) (s : Seed)
      → IsPending new_size base g
      → new_size < g.input_sizes i
      → get_elem? g.inputs (g.smallest_element i) ≡ some s
      → (0 < s.num_features)
        × (let t = lose_feature (g.smallest_element i) s g in IsReleased g t.inputs t.delete_nums)
  unfolding lose_feature delete_input
  lost-IsReleased base g s v larger at = (has, chosen (s.num_features - 1 == 0) refl)
    where
      idx : ℕ
      idx = g.smallest_element i

      owner : owns g idx i ≡ true
      owner = ground (arith, ==_refl idx)

      has : 0 < s.num_features
      has = omega (arith, v.counts idx s at, owned-pos g idx i small owner)

      was_live : s.live ≡ true
      was_live = v.alive idx s at ∙ lt→ltb 0 s.num_features has

      other : (k : ℕ) → k ≢ idx → owns g k i ≡ false
      other k d = ground (arith, not_equal idx k (λ e. d (sym e)))

      released :
          (t : Seed) (dn : ℕ)
          → t.num_features ≡ s.num_features - 1
          → t.live ≡ ltb 0 t.num_features
          → dn ≡ dead (set g.inputs idx t)
          → IsReleased g (set g.inputs idx t) dn
      released t dn n l d = record {
        same_length = length-set g.inputs idx t;
        counts = λ k r h. elim (get_elem?-set_cases g.inputs idx k t r h) [
          | inl (e, q) ↦ omega (
            arith,
            n,
            has,
            v.counts idx s at,
            ap one_if owner,
            ap (λ k. one_if (owns g k i)) e,
            ap (owned g) e,
            ap (λ (y : Seed). y.num_features) q,
          )
          | inr (d, h') ↦ omega (arith, v.counts k r h', ap one_if (other k d))
        ];
        alive = λ k r h. elim (get_elem?-set_cases g.inputs idx k t r h) [
          | inl (e, q) ↦ subst (λ (y : Seed). y.live ≡ ltb 0 y.num_features) (sym q) l
          | inr (d, h') ↦ v.alive k r h'
        ];
        deleted = d;
        not_next =
            other (length g.inputs) (λ e. absurd (omega (arith, get_elem?-some g.inputs idx s at)));
      }

      chosen :
          (b : Bool)
          → (s.num_features - 1 == 0) ≡ b
          → let s' = record s { num_features = s.num_features - 1 } in
            let deleted = delete_input idx s' g in
            let t =
              if b
              then record deleted { delete_nums = (g.delete_nums + 1) % 2 ^ 64 }
              else record g { inputs = set g.inputs idx s' } in
            IsReleased g t.inputs t.delete_nums
      chosen true e = released _ _ refl (ground (arith, e)) (
          omega (
            arith,
            v.deleted,
            v.few,
            dead-le g.inputs,
            ap (λ b. one_if (not b)) was_live,
            dead-set g.inputs idx s
                (record s { num_features = s.num_features - 1; live = false; seed_funcs = [] }) at,
          ))
      chosen false e = released _ _ refl (was_live ∙ sym (lt→ltb 0 _ (omega (tests, e)))) (
          omega (
            arith,
            v.deleted,
            dead-set g.inputs idx s (record s { num_features = s.num_features - 1 }) at,
          ))
