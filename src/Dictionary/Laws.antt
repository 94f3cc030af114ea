-- ===== src/Dictionary/Laws.antt =====
-- What a dictionary of FuzzerDictionary.h contains, and that it keeps to its capacity.
use pfuzzer.Base.{
  ◌^◌, ℕ, ◌≤◌, ◌<◌, ◌≡◌, ◌⊎◌, ltb, ◌&&◌, ◌||◌, List, [], ◌∷◌, ◌++◌, some, length, arith,
  length-append, length-take, All, All-append, All-take,
}
use pfuzzer.Base.Bytes.{bytes_eq}
use pfuzzer.Base.Memory.{IsByte}
use pfuzzer.Dictionary.{
  Word, max_word_size, word_set, no_hint, Entry, Dictionary, max_dict_size, contains_word,
  push_back,
}

-- The words are bytes, and hints lie below 2^63 where there are any.
pub record IsEntry (e : Entry) : Type 0 where
  pub fits : length e.word ≤ max_word_size
  pub bytes : All IsByte e.word
  pub hint : (e.position_hint ≡ no_hint) ⊎ (e.position_hint < 2 ^ 63)

pub record IsDictionary (d : Dictionary) : Type 0 where
  pub within : length d ≤ max_dict_size
  pub entries : All IsEntry d

contains_word-append :
    (d : Dictionary) (e : Entry) (w : Word)
    → contains_word (d ++ (e ∷ [])) w ≡ (contains_word d w || bytes_eq e.word w)
unfolding contains_word
contains_word-append [] e w = ground arith
contains_word-append (x ∷ d) e w = ground (arith, contains_word-append d e w)

-- After `push_back` a dictionary contains the words it did and, where it was not full, the word
-- that was pushed.
pub contains_word-push_back :
    (d : Dictionary) (e : Entry) (w : Word)
    → contains_word (push_back d e) w
      ≡ (contains_word d w || (ltb (length d) max_dict_size && bytes_eq e.word w))
unfolding push_back
contains_word-push_back d e w = ground (arith, contains_word-append d e w)

pub push_back-IsDictionary :
    (d : Dictionary) (e : Entry) → IsDictionary d → IsEntry e → IsDictionary (push_back d e)
unfolding push_back
push_back-IsDictionary d e v h =
    ground (arith, length-append d (e ∷ []), All-append IsEntry d (e ∷ []) v.entries (h, tt))

pub word_set-IsWord :
    (bytes : List ℕ) (size : ℕ) (w : Word)
    → All IsByte bytes
    → word_set bytes size ≡ some w
    → (length w ≡ size) × (length w ≤ max_word_size) × All IsByte w
unfolding word_set
word_set-IsWord bytes size w b h =
    ground (arith, length-take size bytes, All-take IsByte size bytes b)
