-- ===== src/Config/Words.antt =====
-- The loop of `zkUA_readConfFile` and the words of the file.
use ua_rate_throttling.Common.{
  ℕ, zero, suc, ◌+◌, ◌≤◌, ◌<◌, ◌≡◌, refl, ap, ◌∙◌, ◌||◌, false, some, List, [], ◌∷◌, ◌++◌, Bytes,
  length, All, leb, if◌then◌else◌, isspace, append_assoc, arith, inl, inr, sym, subst, cons-ne-nil,
  append-nil, ◌≢◌, ◌⊎◌,
}
use ua_rate_throttling.Common.Cstdlib.{skip_space}
use ua_rate_throttling.Config.{
  Config, assign, span_word, next_word, until_end, starts_with, loaded, overrun, word_limit,
  read_loop, read_conf_file, init_config,
}
use ua_rate_throttling.Config.Settings.{Lines, assign_all, settings, assign_all-settings}

-- The words of a text, one byte at a time; `word` is the word that is being read.
flush : Bytes → List Bytes → List Bytes
flush [] words = words
flush (c ∷ word) words = (c ∷ word) ∷ words

split_words : Bytes → Bytes → List Bytes
unfolding flush
split_words word [] = flush word []
split_words word (c ∷ s) =
    if isspace c then flush word (split_words [] s) else split_words (word ++ c ∷ []) s

unfoldable pub words : Bytes → List Bytes
unfolding split_words
words s = split_words [] s

-- An argument and its value; the last argument may lack its value.
unfoldable pub pair_up : List Bytes → Lines
pair_up [] = []
pair_up (a ∷ []) = (a, []) ∷ []
pair_up (a ∷ v ∷ ws) = (a, v) ∷ pair_up ws

words-skip_space : (s : Bytes) → words (skip_space s) ≡ words s
unfolding words skip_space
words-skip_space [] = refl
words-skip_space (c ∷ s) = ground (arith, words-skip_space s)

split_words-span_word :
    (word s : Bytes) → split_words word s ≡ flush (word ++ (span_word s).0) (words (span_word s).1)
unfolding split_words span_word words
split_words-span_word word [] = rw append-nil
split_words-span_word word (c ∷ s) = ground (
  arith,
  append-nil word,
  split_words-span_word (word ++ c ∷ []) s,
  append_assoc word (c ∷ []) (span_word s).0,
)

-- The first word of a text and the words behind it.
words-next_word : (s : Bytes) → words s ≡ flush (next_word s).0 (words (next_word s).1)
words-next_word s =
    sym (words-skip_space s) ∙ (unfold words next_word in split_words-span_word [] (skip_space s))

length-skip_space : (s : Bytes) → length (skip_space s) ≤ length s
unfolding skip_space
length-skip_space [] = omega arith
length-skip_space (c ∷ s) = ground (arith, length-skip_space s)

length-span_word : (s : Bytes) → length (span_word s).0 + length (span_word s).1 ≡ length s
unfolding span_word
length-span_word [] = refl
length-span_word (c ∷ s) = ground (arith, length-span_word s)

length-next_word : (s : Bytes) → length (next_word s).0 + length (next_word s).1 ≤ length s
length-next_word s =
    unfold next_word in omega (arith, length-span_word (skip_space s), length-skip_space s)

-- Without a first word there is nothing behind it.
next_word_nil : (s : Bytes) → (next_word s).0 ≡ [] → (next_word s).1 ≡ []
unfolding next_word skip_space span_word
next_word_nil [] h = refl
next_word_nil (c ∷ s) h = ground (arith, next_word_nil s)

assign_nothing : (c : Config) → assign [] [] c ≡ c
unfolding assign starts_with
assign_nothing c = refl

-- Every word fits its buffer with its terminator.
abbrev pub Fits : Bytes → Type 0
Fits w = length w < word_limit

abbrev Finishes : ℕ → Bytes → Config → Type 0
Finishes fuel s c =
    All Fits (words s) → read_loop fuel s c ≡ loaded (assign_all (pair_up (words s)) c)

in_bounds : (w : Bytes) → Fits w → leb word_limit (length w) ≡ false
in_bounds w h = ground arith

-- The rest of a round, once its two words are read.
finish_round :
    (fuel : ℕ) (argument value rest : Bytes) (c : Config)
    → (argument ≡ [] → value ≡ [])
    → (value ≡ [] → rest ≡ [])
    → ((c' : Config) → rest ≢ [] → Finishes fuel rest c')
    → All Fits (flush argument (flush value (words rest)))
    → (if leb word_limit (length argument) || leb word_limit (length value)
        then overrun
        else until_end (read_loop fuel) rest (assign argument value c))
      ≡ loaded (assign_all (pair_up (flush argument (flush value (words rest)))) c)
unfolding flush until_end assign_all pair_up
finish_round fuel [] [] [] c ha hv ih fits = unfold words in ap loaded (assign_nothing c)
finish_round fuel [] [] (d ∷ r) c ha hv ih fits = absurd (cc (hv refl))
finish_round fuel [] (x ∷ v) rest c ha hv ih fits = absurd (cc (ha refl))
finish_round fuel (y ∷ a) [] [] c ha hv ih fits =
    rw (in_bounds (y ∷ a) fits.0) (unfold words in refl)
finish_round fuel (y ∷ a) [] (d ∷ r) c ha hv ih fits = absurd (cc (hv refl))
finish_round fuel (y ∷ a) (x ∷ v) [] c ha hv ih fits =
    rw (in_bounds (y ∷ a) fits.0, in_bounds (x ∷ v) fits.1.0) (unfold words in refl)
finish_round fuel (y ∷ a) (x ∷ v) (d ∷ r) c ha hv ih fits =
    rw (in_bounds (y ∷ a) fits.0, in_bounds (x ∷ v) fits.1.0)
      (ih (assign (y ∷ a) (x ∷ v) c) (cons-ne-nil d r) fits.1.1)

-- The words of the text, one pair further.
words_round :
    (s : Bytes)
    → words s
      ≡ flush
          (next_word s).0
          (flush (next_word (next_word s).1).0 (words (skip_space (next_word (next_word s).1).1)))
words_round s =
    words-next_word s
    ∙ ap (flush (next_word s).0) (
        words-next_word (next_word s).1
        ∙ ap (flush (next_word (next_word s).1).0)
            (sym (words-skip_space (next_word (next_word s).1).1)))

next_word-nil : next_word [] ≡ ([], [])
unfolding next_word skip_space
next_word-nil = refl

second_word_nil : (s : Bytes) → (next_word s).0 ≡ [] → (next_word (next_word s).1).0 ≡ []
second_word_nil s h = ap (λ r. (next_word r).0) (next_word_nil s h) ∙ ap (λ p. p.0) next_word-nil

skip_space-rest_nil : (s : Bytes) → (next_word s).0 ≡ [] → skip_space (next_word s).1 ≡ []
skip_space-rest_nil s h = rw (next_word_nil s h) (unfold skip_space in refl)

nil-or-longer {ℓ} : {A : Type ℓ} (l : List A) → (l ≡ []) ⊎ (0 < length l)
nil-or-longer [] = inl refl
nil-or-longer (x ∷ l) = inr (omega arith)

-- What a round leaves unread.
abbrev after_round : Bytes → Bytes
after_round s = skip_space (next_word (next_word s).1).1

after_round_nil : (s : Bytes) → (next_word s).0 ≡ [] → after_round s ≡ []
after_round_nil s h =
    ap (λ r. skip_space (next_word r).1) (next_word_nil s h) ∙ (unfold next_word skip_space in refl)

-- A round that leaves something has read something.
after_round_shorter : (s : Bytes) → after_round s ≢ [] → length (after_round s) < length s
after_round_shorter s h = elim (nil-or-longer (next_word s).0) [
  | inl none_read ↦ absurd (h (after_round_nil s none_read))
  | inr read ↦ omega (
    arith,
    length-next_word s,
    length-next_word (next_word s).1,
    length-skip_space (next_word (next_word s).1).1,
  )
]

read_loop-Finishes : (fuel : ℕ) (s : Bytes) (c : Config) → length s < fuel → Finishes fuel s c
unfolding read_loop
read_loop-Finishes zero s c h fits = absurd (omega arith)
read_loop-Finishes (suc fuel) s c h fits =
    finish_round fuel (next_word s).0 (next_word (next_word s).1).0 (after_round s) c
      (second_word_nil s) (skip_space-rest_nil (next_word s).1)
      (λ c' some_left.
        read_loop-Finishes fuel (after_round s) c' (omega (arith, after_round_shorter s some_left)))
      (subst (All Fits) (words_round s) fits)
    ∙ ap (λ ws. loaded (assign_all (pair_up ws) c)) (sym (words_round s))

-- Take the words of a file in pairs, an argument and its value. If every word is shorter than 65535
-- bytes, reading the file ends, overruns no buffer, and each member of the configuration holds the
-- value of the last pair whose argument begins with the name of the member, or what the members are
-- at first where there is none.
pub read_conf_file-settings :
    (s : Bytes)
    → All Fits (words s)
    → read_conf_file (some s) ≡ loaded (settings (pair_up (words s)) init_config)
unfolding read_conf_file
read_conf_file-settings s fits =
    read_loop-Finishes (length s + 1) s init_config (omega arith) fits
    ∙ ap loaded (assign_all-settings (pair_up (words s)) init_config)
