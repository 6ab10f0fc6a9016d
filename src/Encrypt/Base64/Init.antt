-- ===== src/Encrypt/Base64/Init.antt =====
-- init_base64_map: the digits that it sets.
use dolphin_core.Base.{
  ℕ, zero, suc, ◌+◌, ◌-◌, ◌<◌, ◌≡◌, ◌≢◌, refl, sym, ap, ◌∙◌, arith, true, false,
}
use dolphin_core.Base.{
  List, [], ◌∷◌, ◌++◌, ◌==◌, if◌then◌else◌, if_elim, if_false, get_or, length, length-set,
  length-append, set, drop, min, take_all, c_string,
}
use dolphin_core.Base.Assoc.{elem, Distinct, append-Distinct_one}
use dolphin_core.Encrypt.Base64.{
  Setup, strcpy_q, same_string, no_strchr, set_digits, init_base64_map, replicate,
}
use dolphin_core.Encrypt.Base64.RoundTrip.{IsSetup}

get_or-set_self : (xs : List ℕ) (i v d : ℕ) → i < length xs → get_or (set xs i v) i d ≡ v
get_or-set_self [] i v d h = absurd (omega arith)
get_or-set_self (x ∷ xs) zero v d h = refl
get_or-set_self (x ∷ xs) (suc i) v d h = get_or-set_self xs i v d (omega arith)

get_or-set_ne : (xs : List ℕ) (i j v d : ℕ) → i ≢ j → get_or (set xs i v) j d ≡ get_or xs j d
get_or-set_ne [] i j v d ne = refl
get_or-set_ne (x ∷ xs) zero zero v d ne = absurd (ne refl)
get_or-set_ne (x ∷ xs) zero (suc j) v d ne = refl
get_or-set_ne (x ∷ xs) (suc i) zero v d ne = refl
get_or-set_ne (x ∷ xs) (suc i) (suc j) v d ne = get_or-set_ne xs i j v d (λ e. ne (ap suc e))

elem-get_or : (xs : List ℕ) (v d : ℕ) → v < length xs → elem (get_or xs v d) xs ≡ true
elem-get_or [] v d h = absurd (omega arith)
elem-get_or (x ∷ xs) zero d h = ground arith
elem-get_or (x ∷ xs) (suc v) d h = ground (arith, elem-get_or xs v d (omega arith))

get_or-append : (xs ys : List ℕ) (v d : ℕ) → v < length xs → get_or (xs ++ ys) v d ≡ get_or xs v d
get_or-append [] ys v d h = absurd (omega arith)
get_or-append (x ∷ xs) ys zero d h = refl
get_or-append (x ∷ xs) ys (suc v) d h = get_or-append xs ys v d (omega arith)

-- One entry of the decoding map.
put_digit : ℕ → ℕ → List ℕ → List ℕ
put_digit i x d = if x == 0 then d else set d x i

put_digit-length : (i x : ℕ) (d : List ℕ) → length (put_digit i x d) ≡ length d
unfolding put_digit
put_digit-length i x d =
    if_elim (λ (e : List ℕ). length e ≡ length d) (x == 0) _ _ (λ _. refl) (λ _. length-set d x i)

put_digit-other : (i x y : ℕ) (d : List ℕ) → x ≢ y → get_or (put_digit i x d) y 255 ≡ get_or d y 255
unfolding put_digit
put_digit-other i x y d h =
    if_elim (λ (e : List ℕ). get_or e y 255 ≡ get_or d y 255) (x == 0) _ _ (λ _. refl)
      (λ _. get_or-set_ne d x y i 255 h)

set_digits-other :
    (i : ℕ) (xs d : List ℕ) (y : ℕ)
    → elem y xs ≡ false
    → get_or (set_digits i xs d) y 255 ≡ get_or d y 255
unfolding set_digits put_digit
set_digits-other i [] d y h = refl
set_digits-other i (x ∷ xs) d y h =
    set_digits-other (i + 1) xs (put_digit i x d) y (ground (arith, h))
    ∙ put_digit-other i x y d (ground (arith, h))

-- A character that is there once has its index.
set_digits-digit :
    (i : ℕ) (xs d : List ℕ) (v : ℕ)
    → Distinct xs
    → v < length xs
    → get_or xs v 0 ≢ 0
    → get_or xs v 0 < length d
    → get_or (set_digits i xs d) (get_or xs v 0) 255 ≡ i + v
unfolding set_digits put_digit
set_digits-digit i [] d v u h n lt = absurd (omega arith)
set_digits-digit i (x ∷ xs) d zero u h n lt =
    set_digits-other (i + 1) xs (put_digit i x d) x u.0
    ∙ ap (λ e. get_or e x 255) (if_false {b = x == 0} _ _ (ground (arith, n)))
    ∙ get_or-set_self d x i 255 lt
    ∙ omega arith
set_digits-digit i (x ∷ xs) d (suc v) u h n lt =
    set_digits-digit (i + 1) xs (put_digit i x d) v u.1 (omega arith) n
      (omega (arith, put_digit-length i x d))
    ∙ omega arith

-- What a map has to be: 64 characters, each once, all of them ASCII, and the pad not among them.
pub record IsMap (pmap : List ℕ) (m : ℕ) : Type 0 where
  pub whole : length pmap ≡ 64
  pub once : Distinct pmap
  pub text : elem 0 pmap ≡ false
  pub ascii : (v : ℕ) → v < 64 → get_or pmap v 0 < 128
  pub pad : elem m pmap ≡ false
  pub mark : m ≢ 0

put_nul :
    (source dest : List ℕ)
    → length dest ≡ length source + 1
    → set (source ++ drop (length source) dest) (length source) 0 ≡ source ++ (0 ∷ [])
put_nul [] [] h = absurd (omega arith)
put_nul [] (y ∷ []) h = refl
put_nul [] (y ∷ z ∷ dest) h = absurd (omega arith)
put_nul (x ∷ source) [] h = absurd (omega arith)
put_nul (x ∷ source) (y ∷ dest) h = ap (◌∷◌ x) (put_nul source dest (omega arith))

strcpy_q-map :
    (dest pmap : List ℕ) → length dest ≡ length pmap + 1 → strcpy_q dest pmap ≡ pmap ++ (0 ∷ [])
unfolding strcpy_q
strcpy_q-map dest pmap h =
    let fits : min (length dest) (length pmap) ≡ length pmap = omega arith in
    let last : min (length pmap) (length dest - 1) ≡ length pmap = omega arith in
    rw (fits, last, take_all (length pmap) pmap (omega arith)) (put_nul pmap dest h)

-- A map that is set, and is not the one that was there, is one under which bytes are encoded and
-- decoded: its digits differ from each other and from the pad.
pub init_base64_map-IsSetup :
    (s : Setup) (pmap : List ℕ) (m : ℕ)
    → length s.base64_map ≡ 65
    → same_string (c_string s.base64_map) pmap ≡ false
    → IsMap pmap m
    → IsSetup (init_base64_map s pmap m)
unfolding init_base64_map no_strchr
init_base64_map-IsSetup s pmap m h new w =
    rw (new, w.pad, not_zero, strcpy_q-map s.base64_map pmap (omega (arith, w.whole)))
      (record {
        digit = λ v lt.
            set_digits-digit 0 (pmap ++ (0 ∷ [])) (replicate 256 255) v
              (append-Distinct_one 0 pmap w.once w.text)
              (omega (arith, w.whole, length-append pmap (0 ∷ []))) (λ e. apart v 0 lt w.text e)
              (let a : get_or pmap v 0 < 128 = w.ascii v lt in omega (arith, digit_of v lt))
            ∙ omega arith;
        other = λ v lt e. apart v m lt w.pad e;
      })
  where
    not_zero : (m == 0) ≡ false
    not_zero = ground (arith, w.mark)

    digit_of : (v : ℕ) → v < 64 → get_or (pmap ++ (0 ∷ [])) v 0 ≡ get_or pmap v 0
    digit_of v lt = get_or-append pmap (0 ∷ []) v 0 (omega (arith, w.whole))

    apart : (v x : ℕ) → v < 64 → elem x pmap ≡ false → get_or (pmap ++ (0 ∷ [])) v 0 ≢ x
    apart v x lt f e =
        let there : elem (get_or pmap v 0) pmap ≡ true =
          elem-get_or pmap v 0 (omega (arith, w.whole)) in
        let same : get_or pmap v 0 ≡ x = sym (digit_of v lt) ∙ e in
        let here : elem x pmap ≡ true = rw same at there in absurd (ground (arith, here, f))
