-- ===== src/Net/TcpLink/Segments.antt =====
-- However the network splits the stream, the reads of a link hand over the packets of its cut.
use dolphin_core.Base.{ℕ, ◌≡◌, refl, ap, ◌∙◌, sym, arith, Bool, true, false}
use dolphin_core.Base.{List, [], ◌∷◌, ◌++◌, append_assoc, ◌⊎◌}
use dolphin_core.Base.{append-nil, concat}
use dolphin_core.Net.TcpLink.{success, fail, Outcome, on_data}
use dolphin_core.Net.TcpLink.Cut.{IsPending, Cut, pending, bad, packet, Cut-append, Cut-append_bad}
use dolphin_core.Net.TcpLink.Reads.{Reads, cut, refused, on_data-Reads}
use dolphin_core.Net.TcpLink.Gateway.{Reader, Read, lat_none}
use dolphin_core.Net.TcpLink.Gateway.{read_on, on_read, on_reads, followed}

-- A link that is past its gateway check, or needs none.
abbrev pub IsOpen : Reader → Type 0
IsOpen r = (r.link_attr ≡ lat_none) ⊎ (r.gw_attr.is_auth ≡ true)

pub on_read_open : (r : Reader) (d : List ℕ) → IsOpen r → on_read r d ≡ read_on r d
unfolding on_read
on_read_open r d free = ground arith

-- The rest of a cut is pending.
Cut-IsPending :
    {xs : List ℕ} {ms : List (List ℕ)} {r : List ℕ} {g : Bool}
    → Cut xs ms r g
    → g ≡ true
    → IsPending r
Cut-IsPending (pending h) e = h
Cut-IsPending (bad h) e = cc
Cut-IsPending (packet p ys k eq c) e = Cut-IsPending c e

-- `out` is what all the reads of the bytes `xs` have to give.
pub data Session (xs : List ℕ) (r : Reader) (out : Read) : Type 0 where
  complete :
      (ms : List (List ℕ)) (rest : List ℕ)
      → Cut xs ms rest true
      → out ≡ record { code = success; delivered = ms; reader = record r { pre_msg = rest } }
      → Session xs r out
  broken :
      (ms lost : List (List ℕ)) (rest : List ℕ) (n : ℕ)
      → Cut xs (ms ++ lost) rest false
      → out.code ≡ fail n
      → out.delivered ≡ ms
      → Session xs r out

module _ (r : Reader) (d : List ℕ) (ds : List (List ℕ)) (free : IsOpen r) where
  on_read_gives :
      (out : Outcome)
      → on_data r.pre_msg d ≡ out
      → on_read r d ≡ record {
        code = out.code;
        delivered = out.delivered;
        reader = record r { pre_msg = out.pre_msg };
      }
  unfolding read_on
  on_read_gives out e = on_read_open r d free ∙ rw e

  on_reads-success :
      (ms : List (List ℕ)) (rest : List ℕ)
      → on_data r.pre_msg d ≡ record { code = success; pre_msg = rest; delivered = ms }
      → let later = on_reads (record r { pre_msg = rest }) ds in
        on_reads r (d ∷ ds) ≡ record later { delivered = ms ++ later.delivered }
  unfolding on_reads
  on_reads-success ms rest e =
      ap (λ (x : Read). followed x.code x (on_reads x.reader ds))
        (on_read_gives (record { code = success; pre_msg = rest; delivered = ms }) e)

  on_reads-fail :
      (n : ℕ) (pre : List ℕ)
      → on_data r.pre_msg d ≡ record { code = fail n; pre_msg = pre; delivered = [] }
      → on_reads r (d ∷ ds)
        ≡ record { code = fail n; delivered = []; reader = record r { pre_msg = pre } }
  unfolding on_reads
  on_reads-fail n pre e =
      ap (λ (x : Read). followed x.code x (on_reads x.reader ds))
        (on_read_gives (record { code = fail n; pre_msg = pre; delivered = [] }) e)

  -- A read that went well, and the session after it.
  join :
      (ms : List (List ℕ)) (rest : List ℕ)
      → Cut (r.pre_msg ++ d) ms rest true
      → on_data r.pre_msg d ≡ record { code = success; pre_msg = rest; delivered = ms }
      → Session
          (rest ++ concat ds)
          (record r { pre_msg = rest })
          (on_reads (record r { pre_msg = rest }) ds)
      → Session ((r.pre_msg ++ d) ++ concat ds) r (on_reads r (d ∷ ds))
  join ms rest c e (complete ms' rest' c' e') =
      complete (ms ++ ms') rest' (Cut-append (concat ds) c refl c')
        (on_reads-success ms rest e ∙ rw e')
  join ms rest c e (broken ms' lost rest' n c' e' e'') =
      broken (ms ++ ms') lost rest' n
        (rw (append_assoc ms ms' lost) (Cut-append (concat ds) c refl c'))
        (rw (on_reads-success ms rest e) e') (rw (on_reads-success ms rest e, e''))

  step :
      ((s : Reader)
        → IsOpen s
        → IsPending s.pre_msg
        → Session (s.pre_msg ++ concat ds) s (on_reads s ds))
      → Reads (r.pre_msg ++ d) [] (on_data r.pre_msg d)
      → Session ((r.pre_msg ++ d) ++ concat ds) r (on_reads r (d ∷ ds))
  step ih (cut ms rest c e) =
      join ms rest c e (ih (record r { pre_msg = rest }) free (Cut-IsPending c refl))
  step ih (refused ms rest pre n c e) =
      broken [] ms (rest ++ concat ds) n (Cut-append_bad (concat ds) c refl)
        (rw (on_reads-fail n pre e)) (rw (on_reads-fail n pre e))

-- The reads of an open link give the packets of the cut of all bytes together.
pub on_reads-Session :
    (ds : List (List ℕ)) (r : Reader)
    → IsOpen r
    → IsPending r.pre_msg
    → Session (r.pre_msg ++ concat ds) r (on_reads r ds)
on_reads-Session [] r free p =
    complete [] r.pre_msg (rw append-nil (pending p)) (unfold on_reads in refl)
on_reads-Session (d ∷ ds) r free p =
    rw (sym (append_assoc r.pre_msg d (concat ds)))
      (step r d ds free (on_reads-Session ds) (on_data-Reads r.pre_msg d p))
