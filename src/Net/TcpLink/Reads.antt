-- ===== src/Net/TcpLink/Reads.antt =====
-- One call of `OnRead`, branch by branch, against the cut of the bytes that it has to deal with.
use dolphin_core.Base.{
  ℕ, zero, suc, ◌+◌, ◌-◌, ◌≤◌, ◌<◌, ◌≡◌, refl, ap, ◌∙◌, sym, arith, true, false,
}
use dolphin_core.Base.{
  List, [], ◌∷◌, ◌++◌, length, take, drop, append_assoc, length-append, inl, inr,
}
use dolphin_core.Base.{take-append-drop, length-take, length-drop, append-nil}
use dolphin_core.Base.{Bool-cases}
use native.Mathlib.Decide.{dec_lt}
use dolphin_core.Net.TcpLink.{
  parse_need_size, packet_size_check, get_one_packet_size, success, fail,
}
use dolphin_core.Net.TcpLink.{Outcome, read_loop, finish_pending, on_data}
use dolphin_core.Net.TcpLink.Cut.{IsPacket, IsPending, Cut, pending, bad, packet}
use dolphin_core.Net.TcpLink.Cut.{get_one_packet_size-append, min-le-size}
use dolphin_core.Base.{take-append_add, ◌≢◌}

-- `out` is what reading `xs` behind the packets `queue` has to give.
pub data Reads (xs : List ℕ) (queue : List (List ℕ)) (out : Outcome) : Type 0 where
  cut :
      (ms : List (List ℕ)) (r : List ℕ)
      → Cut xs ms r true
      → out ≡ record { code = success; pre_msg = r; delivered = queue ++ ms }
      → Reads xs queue out
  refused :
      (ms : List (List ℕ)) (r pre : List ℕ) (n : ℕ)
      → Cut xs ms r false
      → out ≡ record { code = fail n; pre_msg = pre; delivered = [] }
      → Reads xs queue out

Reads-packet :
    (p xs ys : List ℕ) (queue : List (List ℕ)) {out : Outcome}
    → IsPacket p
    → ys ≡ p ++ xs
    → Reads xs (queue ++ (p ∷ [])) out
    → Reads ys queue out
Reads-packet p xs ys queue k eq (cut ms r c e) =
    cut (p ∷ ms) r (packet p ys k eq c) (rw (← append_assoc queue (p ∷ []) ms) e)
Reads-packet p xs ys queue k eq (refused ms r pre n c e) =
    refused (p ∷ ms) r pre n (packet p ys k eq c) e

-- The bytes that the code takes for a packet are one.
taken-IsPacket :
    (d : List ℕ)
    → parse_need_size ≤ length d
    → packet_size_check (get_one_packet_size d) ≡ true
    → get_one_packet_size d ≤ length d
    → IsPacket (take (get_one_packet_size d) d)
taken-IsPacket d h c fits = record {
  header = omega (arith, len, min-le-size (get_one_packet_size d) c);
  checked = rw same c;
  whole = rw (same, len) refl;
}
  where
    len : length (take (get_one_packet_size d) d) ≡ get_one_packet_size d
    len = omega (arith, length-take (get_one_packet_size d) d)

    same : get_one_packet_size (take (get_one_packet_size d) d) ≡ get_one_packet_size d
    same =
        sym (
          get_one_packet_size-append (take (get_one_packet_size d) d)
            (drop (get_one_packet_size d) d)
            (omega (arith, len, min-le-size (get_one_packet_size d) c)))
        ∙ ap get_one_packet_size (take-append-drop (get_one_packet_size d) d)

-- The four ways in which a round of the loop goes on.
module _ (fuel : ℕ) (d : List ℕ) (queue : List (List ℕ)) where
  read_loop-short :
      length d < parse_need_size
      → read_loop (suc fuel) d queue ≡ record { code = success; pre_msg = d; delivered = queue }
  unfolding read_loop
  read_loop-short h = ground arith

  read_loop-bad :
      parse_need_size ≤ length d
      → packet_size_check (get_one_packet_size d) ≡ false
      → read_loop (suc fuel) d queue ≡ record { code = fail 3; pre_msg = []; delivered = [] }
  unfolding read_loop
  read_loop-bad h c = ground arith

  read_loop-part :
      parse_need_size ≤ length d
      → packet_size_check (get_one_packet_size d) ≡ true
      → length d < get_one_packet_size d
      → read_loop (suc fuel) d queue ≡ record { code = success; pre_msg = d; delivered = queue }
  unfolding read_loop
  read_loop-part h c p = ground arith

  read_loop-packet :
      parse_need_size ≤ length d
      → packet_size_check (get_one_packet_size d) ≡ true
      → get_one_packet_size d ≤ length d
      → read_loop (suc fuel) d queue
        ≡ read_loop fuel
            (drop (get_one_packet_size d) d)
            (queue ++ (take (get_one_packet_size d) d ∷ []))
  unfolding read_loop
  read_loop-packet h c p = ground arith

-- The loop cuts what is left of a read.
read_loop-Reads :
    (fuel : ℕ) (d : List ℕ) (queue : List (List ℕ))
    → length d < fuel
    → Reads d queue (read_loop fuel d queue)
read_loop-Reads zero d queue enough = absurd (omega arith)
read_loop-Reads (suc fuel) d queue enough = elim (dec_lt (length d) parse_need_size) [
  | yes short ↦ cut [] d (pending (inl short)) (rw append-nil (read_loop-short fuel d queue short))
  | no header ↦ elim (Bool-cases (packet_size_check (get_one_packet_size d))) [
    | inr wrong ↦
        refused [] d [] 3 (bad (omega arith, wrong))
          (read_loop-bad fuel d queue (omega arith) wrong)
    | inl checked ↦ elim (dec_lt (length d) (get_one_packet_size d)) [
      | yes part ↦
          cut [] d (pending (inr (checked, part)))
            (rw append-nil (read_loop-part fuel d queue (omega arith) checked part))
      | no fits ↦ rw (read_loop-packet fuel d queue (omega arith) checked (omega arith)) (
          Reads-packet (take (get_one_packet_size d) d) (drop (get_one_packet_size d) d) d queue
            (taken-IsPacket d (omega arith) checked (omega arith))
            (sym (take-append-drop (get_one_packet_size d) d))
            (read_loop-Reads fuel (drop (get_one_packet_size d) d)
              (queue ++ (take (get_one_packet_size d) d ∷ []))
              (omega (
                arith,
                length-drop (get_one_packet_size d) d,
                min-le-size (get_one_packet_size d) checked,
              ))))
    ]
  ]
]

module _ (pre d : List ℕ) where
  abbrev need : ℕ
  need = get_one_packet_size pre

  finish_pending-bad :
      packet_size_check need ≡ false
      → finish_pending pre d ≡ record { code = fail 2; pre_msg = pre; delivered = [] }
  unfolding finish_pending
  finish_pending-bad c = ground arith

  finish_pending-part :
      packet_size_check need ≡ true
      → length d < need - length pre
      → finish_pending pre d ≡ record { code = success; pre_msg = pre ++ d; delivered = [] }
  unfolding finish_pending
  finish_pending-part c p = ground arith

  finish_pending-packet :
      packet_size_check need ≡ true
      → need - length pre ≤ length d
      → finish_pending pre d
        ≡ read_loop
            (suc (length d))
            (drop (need - length pre) d)
            ((pre ++ take (need - length pre) d) ∷ [])
  unfolding finish_pending
  finish_pending-packet c p = ground arith

  -- The packet that is completed is the first packet of the whole stream.
  completed-IsPacket :
      parse_need_size ≤ length pre
      → packet_size_check need ≡ true
      → length pre ≤ need
      → need - length pre ≤ length d
      → IsPacket (pre ++ take (need - length pre) d)
  completed-IsPacket h c le fits = rw (sym (take-append_add need pre d le)) (
      rw same at
        (taken-IsPacket (pre ++ d) (omega (arith, len)) (rw same c) (rw same (omega (arith, len)))))
    where
      same : get_one_packet_size (pre ++ d) ≡ need
      same = get_one_packet_size-append pre d h

      len : length (pre ++ d) ≡ length pre + length d
      len = length-append pre d

  finish_pending-Reads :
      parse_need_size ≤ length pre
      → (packet_size_check need ≡ true → length pre ≤ need)
      → Reads (pre ++ d) [] (finish_pending pre d)
  finish_pending-Reads h le = elim (Bool-cases (packet_size_check need)) [
    | inr wrong ↦
        refused [] (pre ++ d) pre 2 (bad (omega (arith, len), rw same wrong))
          (finish_pending-bad wrong)
    | inl checked ↦ elim (dec_lt (length d) (need - length pre)) [
      | yes part ↦
          cut [] (pre ++ d) (pending (inr (rw same (checked, omega (arith, len)))))
            (finish_pending-part checked part)
      | no fits ↦ rw (finish_pending-packet checked (omega arith)) (
          Reads-packet (pre ++ take (need - length pre) d) (drop (need - length pre) d) (pre ++ d)
            [] (completed-IsPacket h checked (le checked) (omega arith))
            (rw (append_assoc, take-append-drop))
            (read_loop-Reads (suc (length d)) (drop (need - length pre) d)
              ((pre ++ take (need - length pre) d) ∷ [])
              (omega (arith, length-drop (need - length pre) d))))
    ]
  ]
    where
      same : get_one_packet_size (pre ++ d) ≡ need
      same = get_one_packet_size-append pre d h

      len : length (pre ++ d) ≡ length pre + length d
      len = length-append pre d

module _ (pre d : List ℕ) where
  topped : List ℕ
  topped = pre ++ take (parse_need_size - length pre) d

  on_data-topped :
      length pre ≢ 0
      → length pre < parse_need_size
      → parse_need_size ≤ length pre + length d
      → on_data pre d ≡ finish_pending topped (drop (parse_need_size - length pre) d)
  unfolding on_data topped
  on_data-topped ne lt le = ground arith

  on_data-header : parse_need_size ≤ length pre → on_data pre d ≡ finish_pending pre d
  unfolding on_data
  on_data-header le = ground arith

  on_data-few :
      length pre ≢ 0
      → length pre + length d < parse_need_size
      → on_data pre d ≡ record { code = success; pre_msg = pre ++ d; delivered = [] }
  unfolding on_data
  on_data-few ne lt = ground arith

  topped-Reads :
      length pre < parse_need_size
      → parse_need_size ≤ length pre + length d
      → Reads (pre ++ d) [] (finish_pending topped (drop (parse_need_size - length pre) d))
  unfolding topped
  topped-Reads lt le =
      rw (append_assoc, take-append-drop) at
        (finish_pending-Reads topped (drop (parse_need_size - length pre) d) (omega (arith, len))
          (λ c. omega (arith, len, min-le-size (get_one_packet_size topped) c)))
    where
      len : length topped ≡ parse_need_size
      len = omega (
        arith,
        length-append pre (take (parse_need_size - length pre) d),
        length-take (parse_need_size - length pre) d,
      )

-- Behind the gateway check, `OnRead` gives what the cut of the pending bytes and the new ones
-- gives: its packets and its rest, or a failure if the cut comes to a bad header.
pub on_data-Reads : (pre d : List ℕ) → IsPending pre → Reads (pre ++ d) [] (on_data pre d)
on_data-Reads [] d h = unfold on_data in read_loop-Reads (suc (length d)) d [] (omega arith)
on_data-Reads (x ∷ pre) d h = elim (dec_lt (length (x ∷ pre)) parse_need_size) [
  | no header ↦
      rw (on_data-header (x ∷ pre) d (omega arith))
        (finish_pending-Reads (x ∷ pre) d (omega arith) (λ c. ground arith))
  | yes lt ↦ elim (dec_lt (length (x ∷ pre) + length d) parse_need_size) [
    | yes few ↦
        cut [] (x ∷ pre ++ d) (pending (inl (omega (arith, length-append (x ∷ pre) d))))
          (on_data-few (x ∷ pre) d (omega arith) few)
    | no enough ↦
        rw (on_data-topped (x ∷ pre) d (omega arith) lt (omega arith))
          (topped-Reads (x ∷ pre) d lt (omega arith))
  ]
]
