-- ===== src/Net/TcpLink/Cut.antt =====
-- What it means to cut a byte stream into packets, without buffers: the cut is unique, and the
-- cut of a longer stream goes on where the cut of its beginning stopped.
use dolphin_core.Base.{ℕ, ◌≤◌, ◌<◌, ◌≡◌, refl, ap, ap₂, ◌∙◌, sym, arith, Bool, true, false}
use dolphin_core.Base.{
  List, [], ◌∷◌, ◌++◌, length, take, drop, append_assoc, length-append, ◌⊎◌, inl, inr,
}
use dolphin_core.Base.{take-append_eq, drop-append_eq}
use dolphin_core.Net.TcpLink.{parse_need_size, packet_size_check, get_one_packet_size}

-- Exactly one packet: a whole header whose size is admissible and is the size of the whole.
pub record IsPacket (p : List ℕ) : Type 0 where
  pub header : parse_need_size ≤ length p
  pub checked : packet_size_check (get_one_packet_size p) ≡ true
  pub whole : length p ≡ get_one_packet_size p

-- The beginning of a packet, or of a header.
abbrev pub IsPending : List ℕ → Type 0
IsPending r =
    (length r < parse_need_size)
    ⊎ ((packet_size_check (get_one_packet_size r) ≡ true) × (length r < get_one_packet_size r))

-- A header with a size that no packet may have.
abbrev pub IsBad : List ℕ → Type 0
IsBad r = (parse_need_size ≤ length r) × (packet_size_check (get_one_packet_size r) ≡ false)

-- `Cut xs ms r good`: the stream `xs` is the packets `ms` followed by `r`, where no packet can be
-- cut off: `r` is a beginning if `good`, and starts with a bad header if not.
pub data Cut : List ℕ → List (List ℕ) → List ℕ → Bool → Type 0 where
  pending : {r : List ℕ} → IsPending r → Cut r [] r true
  bad : {r : List ℕ} → IsBad r → Cut r [] r false
  packet :
      {xs : List ℕ} {ms : List (List ℕ)} {r : List ℕ} {good : Bool} (p ys : List ℕ)
      → IsPacket p
      → ys ≡ p ++ xs
      → Cut xs ms r good
      → Cut ys (p ∷ ms) r good

-- The header alone decides the size.
pub get_one_packet_size-append :
    (xs ys : List ℕ)
    → parse_need_size ≤ length xs
    → get_one_packet_size (xs ++ ys) ≡ get_one_packet_size xs
get_one_packet_size-append [] ys h = absurd (omega arith)
get_one_packet_size-append (_ ∷ []) ys h = absurd (omega arith)
get_one_packet_size-append (_ ∷ _ ∷ []) ys h = absurd (omega arith)
get_one_packet_size-append (_ ∷ _ ∷ _ ∷ []) ys h = absurd (omega arith)
get_one_packet_size-append (_ ∷ _ ∷ _ ∷ _ ∷ []) ys h = absurd (omega arith)
get_one_packet_size-append (_ ∷ _ ∷ _ ∷ _ ∷ _ ∷ []) ys h = absurd (omega arith)
get_one_packet_size-append (_ ∷ _ ∷ _ ∷ _ ∷ _ ∷ _ ∷ xs) ys h = unfold get_one_packet_size in refl

pub min-le-size : (n : ℕ) → packet_size_check n ≡ true → 8 ≤ n
unfolding packet_size_check
min-le-size n h = ground arith

-- A stream that starts with a packet neither waits nor is bad.
packet-not-end : (p xs : List ℕ) → IsPacket p → IsPending (p ++ xs) ⊎ IsBad (p ++ xs) → ⊥
packet-not-end p xs k e =
    ground
      (arith, length-append p xs, k.header, k.checked, k.whole, get_one_packet_size-append p xs)

pending-not-bad : (r : List ℕ) → IsPending r → IsBad r → ⊥
pending-not-bad r h k = ground arith

-- The first packet of a stream is determined by the stream.
first_unique :
    {p q : List ℕ} (xs ys : List ℕ)
    → IsPacket p
    → IsPacket q
    → p ++ xs ≡ q ++ ys
    → (p ≡ q) × (xs ≡ ys)
first_unique {p} {q} xs ys kp kq e = (
  sym (take-append_eq (length p) p xs refl)
      ∙ ap (take (length p)) e
      ∙ take-append_eq (length p) q ys (sym same),
  sym (drop-append_eq (length p) p xs refl)
      ∙ ap (drop (length p)) e
      ∙ drop-append_eq (length p) q ys (sym same),
)
  where
    same : length p ≡ length q
    same =
        kp.whole
        ∙ sym (get_one_packet_size-append p xs kp.header)
        ∙ ap get_one_packet_size e
        ∙ get_one_packet_size-append q ys kq.header
        ∙ sym kq.whole

pub Cut-append :
    {xs : List ℕ} {ms : List (List ℕ)} {r : List ℕ} {g : Bool} (ys : List ℕ) {ms' : List (List ℕ)}
    {r' : List ℕ} {good : Bool}
    → Cut xs ms r g
    → g ≡ true
    → Cut (r ++ ys) ms' r' good
    → Cut (xs ++ ys) (ms ++ ms') r' good
Cut-append ys (pending h) e c = c
Cut-append ys (bad h) e c = cc
Cut-append ys (packet {xs = xs} p zs k eq d) e c =
    packet p (zs ++ ys) k (ap (λ l. l ++ ys) eq ∙ append_assoc p xs ys) (Cut-append ys d e c)

-- A bad header stays where it is, whatever follows.
pub Cut-append_bad :
    {xs : List ℕ} {ms : List (List ℕ)} {r : List ℕ} {g : Bool} (ys : List ℕ)
    → Cut xs ms r g
    → g ≡ false
    → Cut (xs ++ ys) ms (r ++ ys) false
Cut-append_bad ys (pending h) e = cc
Cut-append_bad ys (bad {r = r} h) e =
    bad (omega (arith, length-append r ys), rw (get_one_packet_size-append r ys h.0) h.1)
Cut-append_bad ys (packet {xs = xs} p zs k eq d) e =
    packet p (zs ++ ys) k (ap (λ l. l ++ ys) eq ∙ append_assoc p xs ys) (Cut-append_bad ys d e)

-- A stream is cut in one way only.
pub Cut-unique :
    {xs : List ℕ} {ms : List (List ℕ)} {r : List ℕ} {g : Bool} {ys : List ℕ} {ms' : List (List ℕ)}
    {r' : List ℕ} {g' : Bool}
    → Cut xs ms r g
    → Cut ys ms' r' g'
    → xs ≡ ys
    → (ms ≡ ms') × (r ≡ r') × (g ≡ g')
Cut-unique (pending h) (pending k) e = (refl, e, refl)
Cut-unique (pending h) (bad k) e = absurd (pending-not-bad _ h (rw e k))
Cut-unique (pending h) (packet {xs = zs} p ys k eq d) e =
    absurd (packet-not-end p zs k (inl (rw (← eq, ← e) h)))
Cut-unique (bad h) (pending k) e = absurd (pending-not-bad _ (rw e k) h)
Cut-unique (bad h) (bad k) e = (refl, e, refl)
Cut-unique (bad h) (packet {xs = zs} p ys k eq d) e =
    absurd (packet-not-end p zs k (inr (rw (← eq, ← e) h)))
Cut-unique (packet {xs = zs} p ys k eq d) (pending h) e =
    absurd (packet-not-end p zs k (inl (rw (← eq, e) h)))
Cut-unique (packet {xs = zs} p ys k eq d) (bad h) e =
    absurd (packet-not-end p zs k (inr (rw (← eq, e) h)))
Cut-unique (packet {xs = zs} p ys k eq d) (packet {xs = us} q vs l eq' d') e =
    let first = first_unique zs us k l (sym eq ∙ e ∙ eq') in
    let later = Cut-unique d d' first.1 in (ap₂ ◌∷◌ first.0 later.0, later.1, later.2)
