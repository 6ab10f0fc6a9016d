-- ===== src/Encrypt/Base64/Tests.antt =====
-- Texts in base 64, and the theorems at the map that the constructor sets.
use dolphin_core.Base.{
  ℕ, ◌<◌, ◌≤◌, ◌≡◌, ◌≢◌, refl, arith, Bool, true, not, ◌&&◌, List, [], ◌∷◌, ◌==◌, ==_iff, below,
  below-all, and_true, length,
}
use dolphin_core.Base.{leb_int, pos, negsuc, ◌-◌, ◌^◌, ltb, get_or, c_string, false, ◌++◌}
use dolphin_core.Base.Assoc.{elem, Distinct}
use dolphin_core.Encrypt.Base64.Init.{IsMap, init_base64_map-IsSetup}
use dolphin_core.Encrypt.Base64.{
  range, same_string, init_base64_map, def_setup, encode_digit, decode_digit, base64_encode,
  base64_decode, base64_encode_size,
}
use dolphin_core.Encrypt.Base64.RoundTrip.{IsSetup, text, base64_round_trip}
use dolphin_core.Encrypt.Base64.Sizes.{base64_encode_bounds}

-- "Man", "Ma" and what they are in base 64.
abbrev man : List ℕ
man = 77 ∷ 97 ∷ 110 ∷ 77 ∷ 97 ∷ []

man_encoded : text (base64_encode def_setup man 100) ≡ 84 ∷ 87 ∷ 70 ∷ 117 ∷ 84 ∷ 87 ∷ 69 ∷ 61 ∷ []
unfolding base64_encode
man_encoded = refl

man_decoded : text (base64_decode def_setup (84 ∷ 87 ∷ 70 ∷ 117 ∷ 84 ∷ 87 ∷ 69 ∷ 61 ∷ []) 100) ≡ man
unfolding base64_decode
man_decoded = refl

digit_test : ℕ → Bool
digit_test v =
    decode_digit def_setup (encode_digit def_setup v) == v && not (encode_digit def_setup v == 61)

digit_tests : below digit_test 64 ≡ true
unfolding digit_test
digit_tests = refl

digit_test_lem :
    (v : ℕ)
    → v < 64
    → ((decode_digit def_setup (encode_digit def_setup v) == v) ≡ true)
      × (not (encode_digit def_setup v == 61) ≡ true)
unfolding digit_test
digit_test_lem v h =
    and_true (decode_digit def_setup (encode_digit def_setup v) == v) _
      (below-all digit_test 64 v digit_tests h)

not_equal : (a b : ℕ) → not (a == b) ≡ true → a ≢ b
not_equal a b h e = ground (arith, h, e)

def_setup-IsSetup : IsSetup def_setup
def_setup-IsSetup = record {
  digit = λ v h.
      (==_iff (decode_digit def_setup (encode_digit def_setup v)) v).0 (digit_test_lem v h).0;
  other = λ v h. not_equal (encode_digit def_setup v) 61 (digit_test_lem v h).1;
}

man_size : leb_int (base64_encode_size (length man)) (pos 9) ≡ true
unfolding base64_encode_size
man_size = refl

base64_round_trip_example :
    text (base64_decode def_setup (text (base64_encode def_setup man 9)) 5) ≡ man
base64_round_trip_example =
    base64_round_trip def_setup man 9 5 def_setup-IsSetup
      (omega arith, (omega arith, (omega arith, (omega arith, (omega arith, tt))))) (omega arith)
      man_size (omega arith)

base64_encode_bounds_example :
    (length (base64_encode def_setup man 9).dst ≤ 9)
    × (base64_encode_size 5 ≡ pos 8)
    × ((base64_encode def_setup man 9).count ≡ 8)
base64_encode_bounds_example = base64_encode_bounds def_setup man 9 (omega arith)

-- The size of the shortest input for which it wraps round, which is -2 ^ 31.
size_wrapped : base64_encode_size 1610612734 ≡ negsuc (2 ^ 31 - 1)
unfolding base64_encode_size
size_wrapped = refl

-- The map for addresses of the web.
abbrev web_map : List ℕ
web_map = range 65 26 ++ range 97 26 ++ range 48 10 ++ (45 ∷ 95 ∷ [])

distinct_test : List ℕ → Bool
distinct_test [] = true
distinct_test (x ∷ xs) = not (elem x xs) && distinct_test xs

distinct_test_lem : (xs : List ℕ) → distinct_test xs ≡ true → Distinct xs
unfolding distinct_test
distinct_test_lem [] h = tt
distinct_test_lem (x ∷ xs) h =
    let a : (not (elem x xs) ≡ true) × (distinct_test xs ≡ true) =
      and_true (not (elem x xs)) (distinct_test xs) h in
    (ground (arith, a), distinct_test_lem xs a.1)

ltb_lem : (a b : ℕ) → ltb a b ≡ true → a < b
ltb_lem a b h = ground (arith, h)

ascii_test : ℕ → Bool
ascii_test v = ltb (get_or web_map v 0) 128

ascii_test_lem : (v : ℕ) → v < 64 → get_or web_map v 0 < 128
unfolding ascii_test
ascii_test_lem v h = ltb_lem (get_or web_map v 0) 128 (below-all ascii_test 64 v refl h)

web_map-IsMap : IsMap web_map 61
unfolding distinct_test
web_map-IsMap = record {
  whole = refl;
  once = distinct_test_lem web_map refl;
  text = refl;
  ascii = ascii_test_lem;
  pad = refl;
  mark = λ e. omega arith;
}

web_map_new : same_string (c_string def_setup.base64_map) web_map ≡ false
unfolding same_string c_string
web_map_new = refl

init_base64_map-IsSetup_example : IsSetup (init_base64_map def_setup web_map 61)
init_base64_map-IsSetup_example =
    init_base64_map-IsSetup def_setup web_map 61 refl web_map_new web_map-IsMap
