-- ===== src/Encrypt/Base64.antt =====
-- src/encrypt/base64/base64.cpp. The characters of `src` in a decoding are below 128, where `char`
-- may have a sign. What is written to `dst` is a list, whether it fits or not; `dst_len` is how much
-- does. The sizes are `int`s, whose sums and products wrap round.
pub mod Sizes
pub mod RoundTrip
pub mod Init
mod Tests
use dolphin_core.Base.{
  ℕ, zero, suc, ◌+◌, ◌*◌, ◌/◌, ◌%◌, List, [], ◌∷◌, ◌++◌, leb_int, ltb_int, ◌==◌, if◌then◌else◌,
  get_or, ℤ, pos, int32, bits32, div_int, length, Bool, true, false, not, ◌&&◌, min, set, take,
  drop, ◌-◌, c_string,
}
use dolphin_core.Base.Assoc.{elem}
use Prim.Native.Nat.{bit_or}

pub record Setup : Type 0 where
  pub base64_map : List ℕ
  pub base64_mod : ℕ
  pub base64_decode_map : List ℕ

-- The numbers of a range.
abbrev range : ℕ → ℕ → List ℕ
range at zero = []
range at (suc n) = at ∷ range (at + 1) n

abbrev pub replicate : ℕ → ℕ → List ℕ
replicate zero x = []
replicate (suc n) x = x ∷ replicate n x

abbrev def_base64_map : List ℕ
def_base64_map = range 65 26 ++ range 97 26 ++ range 48 10 ++ (43 ∷ 47 ∷ [])

abbrev def_base64_decode_map : List ℕ
def_base64_decode_map =
    replicate 43 255
    ++ (62 ∷ [])
    ++ replicate 3 255
    ++ (63 ∷ [])
    ++ range 52 10
    ++ replicate 7 255
    ++ range 0 26
    ++ replicate 6 255
    ++ range 26 26
    ++ replicate 133 255

-- The constructor.
abbrev pub def_setup : Setup
def_setup = record {
  base64_map = def_base64_map ++ (0 ∷ []);
  base64_mod = 61;
  base64_decode_map = def_base64_decode_map;
}

unfoldable pub base64_encode_size : ℕ → ℤ
unfolding int32
base64_encode_size src_len = int32 (4 * bits32 (div_int (int32 (src_len + 2)) 3))

-- `src` without the pads at its end.
unfoldable pub strip : ℕ → List ℕ → List ℕ
strip m [] = []
strip m (x ∷ xs) = elim (strip m xs) [ [] ↦ if x == m then [] else x ∷ [] | y ∷ ys ↦ x ∷ y ∷ ys ]

unfoldable pub base64_decode_size : Setup → List ℕ → ℤ
unfolding strip int32
base64_decode_size s src = div_int (int32 (length (strip s.base64_mod src) * 3)) 4

abbrev pub encode_digit : Setup → ℕ → ℕ
encode_digit s v = get_or s.base64_map v 0

-- The loop over three bytes, and what is left of them.
unfoldable pub encode_loop : Setup → List ℕ → List ℕ
encode_loop s (a ∷ b ∷ c ∷ src) =
    encode_digit s (a / 4 % 64)
    ∷ encode_digit s ((a * 16 + b / 16 % 16) % 64)
    ∷ encode_digit s ((b * 4 + c / 64 % 4) % 64)
    ∷ encode_digit s (c % 64)
    ∷ encode_loop s src
encode_loop s (a ∷ b ∷ []) =
    encode_digit s (a / 4 % 64)
    ∷ encode_digit s ((a * 16 + b / 16 % 16) % 64)
    ∷ encode_digit s (b * 4 % 64)
    ∷ s.base64_mod
    ∷ []
encode_loop s (a ∷ []) =
    encode_digit s (a / 4 % 64) ∷ encode_digit s (a * 16 % 64) ∷ s.base64_mod ∷ s.base64_mod ∷ []
encode_loop s [] = []

-- What is written, and the count that is returned.
pub record Written : Type 0 where
  pub dst : List ℕ
  pub count : ℕ

-- Both calls write if `len` bytes fit, and the end of the string where there is room left.
unfoldable pub written : ℤ → ℕ → List ℕ → Written
written len dst_len out =
    if leb_int len (pos dst_len)
    then record {
      dst = if ltb_int len (pos dst_len) then out ++ (0 ∷ []) else out;
      count = length out;
    }
    else record { dst = []; count = 0 }

unfoldable pub base64_encode : Setup → List ℕ → ℕ → Written
unfolding encode_loop written base64_encode_size
base64_encode s src dst_len = written (base64_encode_size (length src)) dst_len (encode_loop s src)

abbrev pub decode_digit : Setup → ℕ → ℕ
decode_digit s x = get_or s.base64_decode_map x 255

-- The loop over four characters; a `char` keeps eight bits.
unfoldable pub decode_loop : Setup → List ℕ → List ℕ
decode_loop s (a ∷ b ∷ c ∷ d ∷ src) =
    (decode_digit s a * 4 % 256 + decode_digit s b / 16 % 4)
    ∷ (decode_digit s b * 16 % 256 + decode_digit s c / 4 % 16)
    ∷ bit_or (decode_digit s c * 64 % 256) (decode_digit s d)
    ∷ decode_loop s src
decode_loop s (a ∷ b ∷ c ∷ []) =
    (decode_digit s a * 4 % 256 + decode_digit s b / 16 % 4)
    ∷ (decode_digit s b * 16 % 256 + decode_digit s c / 4 % 16)
    ∷ []
decode_loop s (a ∷ b ∷ []) = (decode_digit s a * 4 % 256 + decode_digit s b / 16 % 4) ∷ []
decode_loop s (a ∷ []) = []
decode_loop s [] = []

unfoldable pub base64_decode : Setup → List ℕ → ℕ → Written
unfolding decode_loop strip written base64_decode_size
base64_decode s src dst_len =
    written (base64_decode_size s src) dst_len (decode_loop s (strip s.base64_mod src))

-- strcpy_q of src/platform/p_linux.cpp: at most as much as `dest` holds, a NUL behind it or at the
-- end, and the rest of `dest` as it was.
unfoldable pub strcpy_q : List ℕ → List ℕ → List ℕ
strcpy_q dest source =
    let n = min (length dest) (length source) in
    set (take n source ++ drop n dest) (min n (length dest - 1)) 0

-- `strcmp(a, b) == 0` and `strchr(s, c) == 0`, where no string holds a NUL.
unfoldable pub same_string : List ℕ → List ℕ → Bool
same_string [] [] = true
same_string (x ∷ xs) (y ∷ ys) = x == y && same_string xs ys
same_string _ _ = false

unfoldable pub no_strchr : List ℕ → ℕ → Bool
no_strchr xs c = not (elem c xs) && not (c == 0)

-- The loop of init_base64_map from an index on.
unfoldable pub set_digits : ℕ → List ℕ → List ℕ → List ℕ
set_digits i [] decode_map = decode_map
set_digits i (x ∷ xs) decode_map =
    set_digits (i + 1) xs (if x == 0 then decode_map else set decode_map x i)

-- The characters of the map are below 128.
unfoldable pub init_base64_map : Setup → List ℕ → ℕ → Setup
unfolding strcpy_q same_string no_strchr set_digits
init_base64_map s pmap m =
    if not (same_string (c_string s.base64_map) pmap) && no_strchr pmap m
    then (let map = strcpy_q s.base64_map pmap in
        record {
          base64_map = map;
          base64_mod = m;
          base64_decode_map = set_digits 0 map (replicate 256 255);
        })
    else s
