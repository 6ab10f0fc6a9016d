-- ===== src/Utils/Filter.antt =====
-- src/utils/filter/fileter.cpp: the filter of forbidden words, on bytes. The lines of a word file
-- are an argument, since reading a file is the library's.
pub mod Words
mod Tests
use dolphin_core.Base.{
  ℕ, zero, suc, ◌+◌, ◌-◌, ◌*◌, Bool, true, false, ◌&&◌, ◌||◌, List, [], ◌∷◌, ◌++◌,
}
use dolphin_core.Base.{
  Option, none, some, leb, ltb, ◌==◌, if◌then◌else◌, length, set, c_string, contains, starts_with,
}
use dolphin_core.Mem.LoopBuf.{copy_to}
use dolphin_core.Encrypt.Base64.{replicate}

-- `_MAX_FILTER_SIZE_ >> 1`
abbrev pub max_text : ℕ
max_text = 2048

-- A line without the `\r` at its end.
unfoldable pub trim_line : List ℕ → List ℕ
trim_line [] = []
trim_line (x ∷ []) = if x == 13 then [] else x ∷ []
trim_line (x ∷ y ∷ line) = x ∷ trim_line (y ∷ line)

-- init and initNPC, on the lines of a file that was opened, as C strings; lines that are empty are
-- passed over.
unfoldable pub load_words : List (List ℕ) → List (List ℕ)
unfolding trim_line
load_words [] = []
load_words ([] ∷ lines) = load_words lines
load_words ((x ∷ line) ∷ lines) = trim_line (x ∷ line) ∷ load_words lines

-- The test of a word and the loop of hasFilterStr.
abbrev pub is_word_in : List ℕ → List ℕ → Bool
is_word_in text word = leb (length word) (length text) && ltb 0 (length word) && contains text word

unfoldable pub has_word : List (List ℕ) → List ℕ → Bool
unfolding contains
has_word [] text = false
has_word (word ∷ words) text = is_word_in text word || has_word words text

-- hasFilterStr, and CheckNpcName with the other list of words. The text is the C string at an array;
-- `none` is NULL.
unfoldable pub has_filter_str : List (List ℕ) → Option (List ℕ) → Bool
unfolding has_word c_string
has_filter_str words none = false
has_filter_str words (some array) =
    let text = c_string array in
    if leb max_text (length text)
    then true
    else if ltb 0 (length text)
    then has_word words text
    else false

-- The `while` over the occurrences of a word, each of which becomes one `*`, from the position on
-- behind the first `skip` bytes; and whether there is one.
unfoldable pub replace_from : ℕ → List ℕ → List ℕ → List ℕ × Bool
unfolding starts_with
replace_from skip word [] = ([], false)
replace_from (suc skip) word (x ∷ text) = replace_from skip word text
replace_from zero word (x ∷ text) =
    let here = starts_with (x ∷ text) word in
    let rest : List ℕ × Bool = replace_from (if here then length word - 1 else 0) word text in
    if here then (42 ∷ rest.0, true) else (x ∷ rest.0, rest.1)

abbrev pub replace_word : List ℕ → List ℕ → List ℕ × Bool
replace_word word text =
    if leb (length word) (length text) && ltb 0 (length word)
    then replace_from 0 word text
    else (text, false)

-- The loop of doFilter over the words.
unfoldable pub filter_words : List (List ℕ) → List ℕ → List ℕ × Bool
unfolding replace_from
filter_words [] text = (text, false)
filter_words (word ∷ words) text =
    let once : List ℕ × Bool = replace_word word text in
    let rest : List ℕ × Bool = filter_words words once.0 in (rest.0, once.1 || rest.1)

-- A text that is too long is cut off.
abbrev pub cut_text : List ℕ → ℕ → List ℕ × ℕ
cut_text array len =
    if leb max_text len then (set array (max_text - 1 - 1) 0, max_text - 1) else (array, len)

-- doFilter: the result and the array afterwards.
unfoldable pub do_filter : List (List ℕ) → Option (List ℕ) → ℕ → Bool × List ℕ
unfolding filter_words c_string copy_to
do_filter words none len = (false, [])
do_filter words (some array) len =
    let (array', len') = cut_text array len in
    if (filter_words words (c_string array')).1
    then (true, copy_to 0 (replicate len' 0) array')
    else (true, array')
