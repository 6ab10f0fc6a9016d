-- ===== src/Utils/Filter/Words.antt =====
-- Which texts the filter finds a word in, and what it does to them.
use dolphin_core.Base.{
  ℕ, ◌≤◌, ◌<◌, ◌≡◌, ◌↔◌, refl, ap, ap₂, ◌∙◌, sym, arith, Bool, true, false, ◌&&◌, ◌||◌, ◌⊎◌, inl,
  inr, Bool-cases, ==_iff, and_true,
}
use dolphin_core.Base.{
  List, [], ◌∷◌, ◌++◌, some, length, length-append, leb, ltb, ◌==◌, if_elim, if◌then◌else◌,
  if_false, c_string, contains, starts_with,
}
use dolphin_core.Mem.LoopBuf.{copy_to}
use dolphin_core.Encrypt.Base64.{replicate}
use dolphin_core.Utils.Filter.{
  max_text, is_word_in, has_word, has_filter_str, replace_from, replace_word, filter_words,
  do_filter,
}

-- The word stands somewhere in the text.
abbrev pub Occurs : List ℕ → List ℕ → Type 0
Occurs word text = (front : List ℕ) × (back : List ℕ) × (text ≡ front ++ (word ++ back))

-- One of the words, which is not empty, does.
abbrev pub IsForbidden : List (List ℕ) → List ℕ → Type 0
IsForbidden [] text = ⊥
IsForbidden (word ∷ words) text = ((0 < length word) × Occurs word text) ⊎ IsForbidden words text

starts_with→append :
    (text word : List ℕ) → starts_with text word ≡ true → (back : List ℕ) × (text ≡ word ++ back)
unfolding starts_with
starts_with→append text [] h = (text, refl)
starts_with→append [] (y ∷ word) h = absurd (ground (arith, h))
starts_with→append (x ∷ text) (y ∷ word) h =
    let (same, rest) = and_true (x == y) (starts_with text word) h in
    let (back, e) = starts_with→append text word rest in (back, ap₂ ◌∷◌ ((==_iff x y).0 same) e)

starts_with-append : (word back : List ℕ) → starts_with (word ++ back) word ≡ true
unfolding starts_with
starts_with-append [] back = refl
starts_with-append (x ∷ word) back = ground (arith, starts_with-append word back)

contains→Occurs : (text word : List ℕ) → contains text word ≡ true → Occurs word text
unfolding contains
contains→Occurs [] word h = let (back, e) = starts_with→append [] word h in ([], back, e)
contains→Occurs (x ∷ text) word h = elim (Bool-cases (starts_with (x ∷ text) word)) [
  | inl e ↦ let (back, e') = starts_with→append (x ∷ text) word e in ([], back, e')
  | inr e ↦
      let (front, back, e') = contains→Occurs text word (ground (arith, e, h)) in
      (x ∷ front, back, ap (λ u. x ∷ u) e')
]

Occurs→contains : (front word back : List ℕ) → contains (front ++ (word ++ back)) word ≡ true
unfolding contains
Occurs→contains [] [] [] = unfold starts_with in refl
Occurs→contains [] [] (y ∷ back) = unfold starts_with in refl
Occurs→contains [] (x ∷ word) back = ground (arith, starts_with-append (x ∷ word) back)
Occurs→contains (x ∷ front) word back = ground (arith, Occurs→contains front word back)

-- The test of the lengths changes nothing.
is_word_in_lem :
    (text word : List ℕ) → (is_word_in text word ≡ true) ↔ ((0 < length word) × Occurs word text)
is_word_in_lem text word = (
  λ h.
      let fits : Bool = leb (length word) (length text) && ltb 0 (length word) in
      let (both, found) = and_true fits (contains text word) h in
      let (_, some_in) = and_true (leb (length word) (length text)) (ltb 0 (length word)) both in
      (ground (arith, some_in), contains→Occurs text word found),
  λ (some_in, (front, back, e)).
      let found : contains text word ≡ true = rw e (Occurs→contains front word back) in
      let fits : length word ≤ length text =
        omega (arith, ap length e, length-append front (word ++ back), length-append word back) in
      ground (arith, found, fits, some_in),
)

pub has_word_iff :
    (words : List (List ℕ)) (text : List ℕ) → (has_word words text ≡ true) ↔ IsForbidden words text
unfolding has_word
has_word_iff [] text = (λ h. absurd (ground (arith, h)), λ f. absurd f)
has_word_iff (word ∷ words) text =
    let here = is_word_in_lem text word in
    let later = has_word_iff words text in
    (
      λ h. elim (Bool-cases (is_word_in text word)) [
        | inl e ↦ inl (here.0 e)
        | inr e ↦ inr (later.0 (ap (λ b. b || has_word words text) (sym e) ∙ h))
      ],
      λ f. elim f [
        | inl o ↦ ap (λ b. b || has_word words text) (here.1 o)
        | inr o ↦ after (is_word_in text word) (later.1 o)
      ],
    )
  where
    after : (b : Bool) → has_word words text ≡ true → (b || has_word words text) ≡ true
    after true h = refl
    after false h = h

-- hasFilterStr says true of a text of at least 2048 bytes, and else exactly if one of the words
-- that are not empty occurs in it.
pub has_filter_str_iff :
    (words : List (List ℕ)) (array : List ℕ)
    → (has_filter_str words (some array) ≡ true)
      ↔ ((max_text ≤ length (c_string array)) ⊎ IsForbidden words (c_string array))
unfolding has_filter_str
has_filter_str_iff words array =
    if_elim (λ b. (b ≡ true) ↔ Says) (leb max_text (length text)) _ _
      (λ e. (λ _. inl (ground (arith, e)), λ _. refl))
      (λ e.
        if_elim (λ b. (b ≡ true) ↔ Says) (ltb 0 (length text)) _ _
          (λ _. (
            λ h. inr (words_in.0 h),
            λ f. elim f [ inl long ↦ absurd (ground (arith, long, e)) | inr o ↦ words_in.1 o ],
          ))
          (λ none_in. (
            λ h. absurd (ground (arith, h)),
            λ f. elim f [
              | inl long ↦ absurd (ground (arith, long, e))
              | inr o ↦ absurd (nothing_in words text (ground (arith, none_in)) o)
            ],
          )))
  where
    text : List ℕ
    text = c_string array

    Says : Type 0
    Says = (max_text ≤ length text) ⊎ IsForbidden words text

    words_in : (has_word words text ≡ true) ↔ IsForbidden words text
    words_in = has_word_iff words text

    nothing_in : (ws : List (List ℕ)) (t : List ℕ) → length t ≡ 0 → IsForbidden ws t → ⊥
    nothing_in [] t h f = f
    nothing_in (w ∷ ws) t h (inl (some_in, (front, back, e))) =
        omega
          (arith, h, some_in, ap length e, length-append front (w ++ back), length-append w back)
    nothing_in (w ∷ ws) t h (inr f) = nothing_in ws t h f

-- Whether the loop over a word replaces anything, and that it leaves the text if not.
replace_from_lem :
    (word text : List ℕ)
    → 0 < length word
    → ((replace_from 0 word text).1 ≡ contains text word)
      × (contains text word ≡ false → (replace_from 0 word text).0 ≡ text)
unfolding replace_from contains
replace_from_lem [] text h = absurd (omega arith)
replace_from_lem (y ∷ word) [] h = (unfold starts_with in refl, λ _. refl)
replace_from_lem (y ∷ word) (x ∷ text) h =
    let later = replace_from_lem (y ∷ word) text h in
    elim (Bool-cases (starts_with (x ∷ text) (y ∷ word))) [
      | inl e ↦ rw e (refl, λ f. absurd (ground (arith, f)))
      | inr e ↦ rw e (later.0, λ f. ap (λ u. x ∷ u) (later.1 f))
    ]

replace_word_lem :
    (word text : List ℕ)
    → ((replace_word word text).1 ≡ is_word_in text word)
      × (is_word_in text word ≡ false → (replace_word word text).0 ≡ text)
replace_word_lem word text =
    elim (Bool-cases (leb (length word) (length text) && ltb 0 (length word))) [
      | inl e ↦
          let (_, some_in) = and_true (leb (length word) (length text)) (ltb 0 (length word)) e in
          rw e (replace_from_lem word text (ground (arith, some_in)))
      | inr e ↦ rw e (refl, λ _. refl)
    ]

-- doFilter finds something exactly if hasFilterStr would, apart from the length.
filter_words_lem :
    (words : List (List ℕ)) (text : List ℕ) → (filter_words words text).1 ≡ has_word words text
unfolding filter_words has_word
filter_words_lem [] text = refl
filter_words_lem (word ∷ words) text =
    let (once, kept) = replace_word_lem word text in
    let later : Bool → Bool = λ b. b || (filter_words words (replace_word word text).0).1 in
    elim (Bool-cases (is_word_in text word)) [
      | inl e ↦ ap later (once ∙ e) ∙ ap (λ b. b || has_word words text) (sym e)
      | inr e ↦
          ap later (once ∙ e)
          ∙ ap (λ t. (filter_words words t).1) (kept e)
          ∙ filter_words_lem words text
          ∙ ap (λ b. b || has_word words text) (sym e)
    ]

-- doFilter, with a length below 2048, leaves the array as it is if hasFilterStr finds none of the
-- words in its text, and else clears its first `len` bytes: nothing is left of the text that it
-- makes with the words replaced.
pub do_filter_clears :
    (words : List (List ℕ)) (array : List ℕ) (len : ℕ)
    → len < max_text
    → do_filter words (some array) len
      ≡ (true, if has_word words (c_string array) then copy_to 0 (replicate len 0) array else array)
unfolding do_filter
do_filter_clears words array len short =
    ap after (if_false {b = leb max_text len} _ _ (ground (arith, short)))
    ∙ if_elim (λ r. r ≡ (true, if found then copy_to 0 (replicate len 0) array else array)) found _
        _ (λ e. rw e refl) (λ e. rw e refl)
    ∙ ap (λ b. (true, if b then copy_to 0 (replicate len 0) array else array))
        (filter_words_lem words (c_string array))
  where
    found : Bool
    found = (filter_words words (c_string array)).1

    after : List ℕ × ℕ → Bool × List ℕ
    after (a, n) =
        if (filter_words words (c_string a)).1
        then (true, copy_to 0 (replicate n 0) a)
        else (true, a)
