-- ===== src/Utils/Filter/Tests.antt =====
-- Two words and a text with one of them.
use dolphin_core.Base.{
  ℕ, ◌≡◌, ◌≤◌, ◌↔◌, ◌⊎◌, refl, arith, true, List, [], ◌∷◌, some, length, c_string,
}
use dolphin_core.Base.{if◌then◌else◌, starts_with}
use dolphin_core.Mem.LoopBuf.{copy_to}
use dolphin_core.Encrypt.Base64.{replicate}
use dolphin_core.Utils.Filter.{
  max_text, has_word, has_filter_str, do_filter, filter_words, replace_from, load_words, trim_line,
}
use dolphin_core.Utils.Filter.Words.{IsForbidden, has_filter_str_iff, do_filter_clears}

abbrev words : List (List ℕ)
words = (66 ∷ 67 ∷ []) ∷ [] ∷ (65 ∷ []) ∷ []

abbrev text : List ℕ
text = 70 ∷ 66 ∷ 67 ∷ 65 ∷ 0 ∷ 9 ∷ []

words_loaded : load_words ((66 ∷ 67 ∷ 13 ∷ []) ∷ [] ∷ (13 ∷ []) ∷ (65 ∷ []) ∷ []) ≡ words
unfolding load_words trim_line
words_loaded = refl

text_replaced : (filter_words words (c_string text)).0 ≡ 70 ∷ 42 ∷ 42 ∷ []
unfolding filter_words c_string replace_from starts_with
text_replaced = refl

text_cleared : do_filter words (some text) 5 ≡ (true, 0 ∷ 0 ∷ 0 ∷ 0 ∷ 0 ∷ 9 ∷ [])
unfolding do_filter filter_words c_string replace_from starts_with copy_to
text_cleared = refl

has_filter_str_iff_example :
    (has_filter_str words (some text) ≡ true)
    ↔ ((max_text ≤ length (c_string text)) ⊎ IsForbidden words (c_string text))
has_filter_str_iff_example = has_filter_str_iff words text

do_filter_clears_example :
    do_filter words (some text) 5
    ≡ (true, if has_word words (c_string text) then copy_to 0 (replicate 5 0) text else text)
do_filter_clears_example = do_filter_clears words text 5 (omega arith)
