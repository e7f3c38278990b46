-- ===== src/Rag/Words.antt =====
-- rag_evaluators.py: `_content_tokens` and `_unique_ordered`. `lower` is Python's `str.lower`.
use Prim.Native.Char.{code}
use Prim.Native.String.{[] as empty, ◌∷◌ as char_cons, ◌++◌ as join}
use eval_ops.Prelude.{
  ℕ, String, Bool, not, ◌&&◌, ◌||◌, List, [], ◌∷◌, ◌==◌, string_eq, if◌then◌else◌, leb, ltb,
  contains, select, to_set,
}
use eval_ops.Calibration.Bounded.{text_length}

-- `[a-z0-9]`
abbrev is_word_char : ℕ → Bool
is_word_char c = (leb 97 c && leb c 122) || (leb 48 c && leb c 57)

-- `_WORD_RE.findall(text)`, with the word read so far.
unfoldable pub words_from : String → String → List String
words_from word empty = if word == "" then [] else word ∷ []
words_from word (char_cons c s) =
    let longer = words_from (join word (char_cons c empty)) s in
    let next = words_from "" s in
    if is_word_char (code c) then longer else if word == "" then next else word ∷ next

abbrev stopwords : List String
stopwords =
    "a" ∷ "an" ∷ "the" ∷ "this" ∷ "that" ∷ "these" ∷ "those" ∷ "and" ∷ "or" ∷ "but" ∷ "if" ∷ "then"
    ∷ "else" ∷ "of" ∷ "to" ∷ "in" ∷ "on" ∷ "at" ∷ "by" ∷ "for" ∷ "with" ∷ "from" ∷ "as" ∷ "is"
    ∷ "are" ∷ "was" ∷ "were" ∷ "be" ∷ "been" ∷ "being" ∷ "it" ∷ "its" ∷ "he" ∷ "she" ∷ "they"
    ∷ "them" ∷ "his" ∷ "her" ∷ "their" ∷ "you" ∷ "your" ∷ "we" ∷ "our" ∷ "i" ∷ "me" ∷ "my" ∷ "do"
    ∷ "does" ∷ "did" ∷ "not" ∷ "no" ∷ "yes" ∷ "can" ∷ "will" ∷ "would" ∷ "should" ∷ "could" ∷ "may"
    ∷ "might" ∷ "must" ∷ "have" ∷ "has" ∷ "had" ∷ "there" ∷ "here" ∷ "what" ∷ "which" ∷ "who"
    ∷ "whom" ∷ "whose" ∷ "than" ∷ []

unfoldable pub content_tokens : (String → String) → String → List String
unfolding words_from text_length
content_tokens lower text =
    to_set (
      select (λ t. ltb 1 (text_length t) && not (contains stopwords t))
        (words_from "" (lower text)))

-- The loop of `_unique_ordered`, with the set of the values seen.
unfoldable pub unique_from : List String → List String → List String
unique_from seen [] = []
unique_from seen (value ∷ ids) =
    let skipped = unique_from seen ids in
    let kept = unique_from (value ∷ seen) ids in
    if contains seen value then skipped else value ∷ kept

unfoldable pub unique_ordered : List String → List String
unfolding unique_from
unique_ordered ids = unique_from [] ids
