-- ===== src/Net/TcpLink/Authority.antt =====
-- The gateway check: the first 256 bytes of a gateway's link are the authority string, and what
-- follows them is read as on any other link.
use dolphin_core.Base.{ℕ, ◌+◌, ◌-◌, ◌≤◌, ◌<◌, ◌≡◌, refl, ap, ◌∙◌, sym, arith, true, false}
use dolphin_core.Base.{List, [], ◌∷◌, ◌++◌, length, take, drop, append_assoc, length-append, concat}
use dolphin_core.Base.{
  take-append_eq, drop-append_eq, take-append_add, drop-append_add, drop_all, take-append_le,
  drop-append_le,
}
use native.Mathlib.Decide.{dec_lt}
use dolphin_core.Net.TcpLink.{success, fail, on_data, read_loop}
use dolphin_core.Net.TcpLink.Gateway.{Reader, Read, lat_gateway, gw_authority_size, authorised}
use dolphin_core.Net.TcpLink.Gateway.{read_on, on_read, on_reads, followed}

-- A gateway's link that has read `w` of its first 256 bytes.
abbrev pub waiting : List ℕ → Reader
waiting w = record {
  link_attr = lat_gateway;
  gw_attr = record { written = w; is_auth = false };
  pre_msg = [];
}

-- The link once they are complete.
abbrev pub opened : List ℕ → Reader
opened w = record {
  link_attr = lat_gateway;
  gw_attr = record { written = w; is_auth = true };
  pre_msg = [];
}

read_on-nil :
    (w : List ℕ)
    → read_on (opened w) [] ≡ record { code = success; delivered = []; reader = opened w }
unfolding read_on on_data read_loop
read_on-nil w = refl

module _ (w d : List ℕ) where
  abbrev full : List ℕ
  full = w ++ take (gw_authority_size - length w) d

  on_read-wait :
      length w + length d < gw_authority_size
      → on_read (waiting w) d ≡ record { code = success; delivered = []; reader = waiting (w ++ d) }
  unfolding on_read
  on_read-wait lt = ground arith

  on_read-refuse :
      length w ≤ gw_authority_size
      → gw_authority_size ≤ length w + length d
      → authorised full ≡ false
      → on_read (waiting w) d ≡ record { code = fail 1; delivered = []; reader = opened full }
  unfolding on_read
  on_read-refuse le fits no_ = ground arith

  -- An empty rest is not read; reading it would give the same.
  on_read-open :
      length w ≤ gw_authority_size
      → gw_authority_size ≤ length w + length d
      → authorised full ≡ true
      → on_read (waiting w) d ≡ on_read (opened full) (drop (gw_authority_size - length w) d)
  unfolding on_read
  on_read-open le fits yes_ =
      ground (arith, drop_all (gw_authority_size - length w) d, read_on-nil full)

-- The session after a first read.
module _ (r : Reader) (d : List ℕ) (ds : List (List ℕ)) (s : Reader) where
  later_reads :
      on_read r d ≡ record { code = success; delivered = []; reader = s }
      → on_reads r (d ∷ ds) ≡ on_reads s ds
  unfolding on_reads
  later_reads e = ap (λ (x : Read). followed x.code x (on_reads x.reader ds)) e

  first_read :
      (d' : List ℕ) → on_read r d ≡ on_read s d' → on_reads r (d ∷ ds) ≡ on_reads s (d' ∷ ds)
  unfolding on_reads
  first_read d' e = ap (λ (x : Read). followed x.code x (on_reads x.reader ds)) e

  failed_read :
      (n : ℕ)
      → on_read r d ≡ record { code = fail n; delivered = []; reader = s }
      → on_reads r (d ∷ ds) ≡ record { code = fail n; delivered = []; reader = s }
  unfolding on_reads
  failed_read n e = ap (λ (x : Read). followed x.code x (on_reads x.reader ds)) e

-- The bytes that a link of this state has still to see before the stream proper.
split_first :
    (w d rest auth s : List ℕ)
    → w ++ (d ++ rest) ≡ auth ++ s
    → length auth ≡ gw_authority_size
    → length w ≤ gw_authority_size
    → gw_authority_size ≤ length w + length d
    → (full w d ≡ auth) × (drop (gw_authority_size - length w) d ++ rest ≡ s)
split_first w d rest auth s e la lw fits = (
  sym first ∙ ap (take gw_authority_size) e ∙ take-append_eq gw_authority_size auth s la,
  sym second ∙ ap (drop gw_authority_size) e ∙ drop-append_eq gw_authority_size auth s la,
)
  where
    first : take gw_authority_size (w ++ (d ++ rest)) ≡ full w d
    first =
        take-append_add gw_authority_size w (d ++ rest) lw
        ∙ ap (λ (l : List ℕ). w ++ l)
            (take-append_le (gw_authority_size - length w) d rest (omega arith))

    second :
        drop gw_authority_size (w ++ (d ++ rest)) ≡ drop (gw_authority_size - length w) d ++ rest
    second =
        drop-append_add gw_authority_size w (d ++ rest) lw
        ∙ drop-append_le (gw_authority_size - length w) d rest (omega arith)

too_few :
    (w auth s : List ℕ)
    → w ++ [] ≡ auth ++ s
    → length auth ≡ gw_authority_size
    → length w < gw_authority_size
    → ⊥
too_few w auth s e la lt = omega (arith, length-append w [], length-append auth s, ap length e)

-- A gateway's link that has read `w` of an authority string `auth` that is accepted goes on as
-- an open link whose reads bring `s`, the bytes behind the first 256.
pub gateway_accepted :
    (ds : List (List ℕ)) (w auth s : List ℕ)
    → w ++ concat ds ≡ auth ++ s
    → length auth ≡ gw_authority_size
    → length w < gw_authority_size
    → authorised auth ≡ true
    → (es : List (List ℕ)) × (concat es ≡ s) × (on_reads (waiting w) ds ≡ on_reads (opened auth) es)
gateway_accepted [] w auth s e la lw ok = absurd (too_few w auth s e la lw)
gateway_accepted (d ∷ ds) w auth s e la lw ok =
    elim (dec_lt (length w + length d) gw_authority_size) [
      | yes few ↦
          let (es, joined, same) =
            gateway_accepted ds (w ++ d) auth s (append_assoc w d (concat ds) ∙ e) la
              (omega (arith, length-append w d)) ok in
          (
            es,
            joined,
            later_reads (waiting w) d ds (waiting (w ++ d)) (on_read-wait w d few) ∙ same,
          )
      | no enough ↦
          let (first, second) =
            split_first w d (concat ds) auth s e la (omega arith) (omega arith) in
          (
            drop (gw_authority_size - length w) d ∷ ds,
            second,
            rw (← first) (
                first_read (waiting w) d ds (opened (full w d))
                  (drop (gw_authority_size - length w) d)
                  (on_read-open w d (omega arith) (omega arith) (rw first ok))),
          )
    ]

-- A gateway's link whose first 256 bytes are not accepted fails with -1 and delivers nothing.
pub gateway_refused :
    (ds : List (List ℕ)) (w auth s : List ℕ)
    → w ++ concat ds ≡ auth ++ s
    → length auth ≡ gw_authority_size
    → length w < gw_authority_size
    → authorised auth ≡ false
    → ((on_reads (waiting w) ds).code ≡ fail 1) × ((on_reads (waiting w) ds).delivered ≡ [])
gateway_refused [] w auth s e la lw bad = absurd (too_few w auth s e la lw)
gateway_refused (d ∷ ds) w auth s e la lw bad =
    elim (dec_lt (length w + length d) gw_authority_size) [
      | yes few ↦ rw (later_reads (waiting w) d ds (waiting (w ++ d)) (on_read-wait w d few)) (
          gateway_refused ds (w ++ d) auth s (append_assoc w d (concat ds) ∙ e) la
            (omega (arith, length-append w d)) bad)
      | no enough ↦
          let (first, second) =
            split_first w d (concat ds) auth s e la (omega arith) (omega arith) in
          rw
            (failed_read (waiting w) d ds (opened (full w d)) 1
              (on_read-refuse w d (omega arith) (omega arith) (rw first bad)))
            (refl, refl)
    ]
