-- ===== src/Net/TcpLink/Tests.antt =====
-- Runs of TcpLink, and the theorems about it at concrete inputs.
use dolphin_core.Base.{ℕ, zero, suc, ◌≡◌, refl, arith, false, List, [], ◌∷◌, ◌++◌, concat, inl}
use dolphin_core.Net.TcpLink.{success, fail, get_one_packet_size, packet_size_check, on_data}
use dolphin_core.Net.TcpLink.Cut.{IsPacket, IsBad}
use dolphin_core.Net.TcpLink.Gateway.{Reader, lat_none, new_reader, on_read, on_reads, authorised}
use dolphin_core.Net.TcpLink.Gateway.{gw_authority_packate}
use dolphin_core.Net.TcpLink.Reads.{Reads, on_data-Reads}
use dolphin_core.Net.TcpLink.Delivery.{packets_delivered, segmentation_irrelevant, bad_header_drops}
use dolphin_core.Net.TcpLink.Authority.{waiting, opened, gateway_accepted, gateway_refused}

-- A packet of two bytes, and one whose flag says that four more bytes of header follow.
abbrev small : List ℕ
small = 2 ∷ 0 ∷ 0 ∷ 0 ∷ 0 ∷ 0 ∷ 71 ∷ 72 ∷ []

abbrev zipped : List ℕ
zipped = 1 ∷ 0 ∷ 0 ∷ 0 ∷ 0 ∷ 128 ∷ 1 ∷ 0 ∷ 0 ∷ 0 ∷ 9 ∷ 0 ∷ 0 ∷ 0 ∷ 0 ∷ 0 ∷ []

-- The size field of a header that asks for 2 GB.
abbrev huge : List ℕ
huge = 0 ∷ 0 ∷ 0 ∷ 128 ∷ 0 ∷ 0 ∷ []

abbrev both : List (List ℕ)
both = small ∷ zipped ∷ []

-- The same bytes, split within the first header, within the second, and nowhere.
abbrev pieces : List (List ℕ)
pieces =
    (2 ∷ 0 ∷ [])
    ∷ (0 ∷ 0 ∷ 0 ∷ 0 ∷ 71 ∷ 72 ∷ 1 ∷ 0 ∷ 0 ∷ [])
    ∷ (0 ∷ 0 ∷ 128 ∷ 1 ∷ 0 ∷ 0 ∷ 0 ∷ 9 ∷ 0 ∷ 0 ∷ 0 ∷ 0 ∷ 0 ∷ 5 ∷ [])
    ∷ []

pieces_read : (on_reads (new_reader lat_none) pieces).delivered ≡ both
unfolding on_reads new_reader on_data
pieces_read = refl

whole_read : (on_reads (new_reader lat_none) ((small ++ zipped ++ (5 ∷ [])) ∷ [])).delivered ≡ both
unfolding on_reads new_reader on_data
whole_read = refl

huge_read : (on_read (new_reader lat_none) (small ++ huge)).code ≡ fail 3
unfolding on_read new_reader on_data
huge_read = refl

small-IsPacket : IsPacket small
unfolding get_one_packet_size packet_size_check
small-IsPacket = record { header = omega arith; checked = refl; whole = refl }

zipped-IsPacket : IsPacket zipped
unfolding get_one_packet_size packet_size_check
zipped-IsPacket = record { header = omega arith; checked = refl; whole = refl }

packets_delivered_example : on_reads (new_reader lat_none) pieces ≡ record {
  code = success;
  delivered = both;
  reader = record (new_reader lat_none) { pre_msg = 5 ∷ [] };
}
packets_delivered_example =
    packets_delivered both (5 ∷ []) pieces (small-IsPacket, (zipped-IsPacket, tt))
      (inl (omega arith)) refl

abbrev fresh : Reader
fresh = record {
  link_attr = lat_none;
  gw_attr = record { written = []; is_auth = false };
  pre_msg = [];
}

segmentation_irrelevant_example :
    on_reads fresh ((small ++ zipped ++ (5 ∷ [])) ∷ []) ≡ on_reads fresh pieces
unfolding on_reads on_data
segmentation_irrelevant_example =
    segmentation_irrelevant fresh pieces ((small ++ zipped ++ (5 ∷ [])) ∷ []) (inl refl)
      (inl (omega arith)) refl refl

on_data-Reads_example :
    Reads
      ((2 ∷ 0 ∷ []) ++ (0 ∷ 0 ∷ 0 ∷ 0 ∷ 71 ∷ 72 ∷ 1 ∷ []))
      []
      (on_data (2 ∷ 0 ∷ []) (0 ∷ 0 ∷ 0 ∷ 0 ∷ 71 ∷ 72 ∷ 1 ∷ []))
on_data-Reads_example =
    on_data-Reads (2 ∷ 0 ∷ []) (0 ∷ 0 ∷ 0 ∷ 0 ∷ 71 ∷ 72 ∷ 1 ∷ []) (inl (omega arith))

huge-IsBad : IsBad huge
unfolding get_one_packet_size packet_size_check
huge-IsBad = (omega arith, refl)

bad_header_drops_example :
    (n : ℕ) × ((on_read fresh (concat both ++ huge)).code ≡ fail n)
    × ((on_read fresh (concat both ++ huge)).delivered ≡ [])
bad_header_drops_example =
    bad_header_drops fresh both huge (inl refl) refl (small-IsPacket, (zipped-IsPacket, tt))
      huge-IsBad

-- 256 bytes that end in the authority string, and 256 that do not hold it.
abbrev letters : ℕ → List ℕ → List ℕ
letters zero l = l
letters (suc n) l = 65 ∷ letters n l

abbrev accepted : List ℕ
accepted = letters 235 gw_authority_packate

abbrev other : List ℕ
other = letters 256 []

gateway_accepted_example :
    (es : List (List ℕ)) × (concat es ≡ small)
    × (on_reads (waiting []) ((accepted ++ (2 ∷ [])) ∷ (0 ∷ 0 ∷ 0 ∷ 0 ∷ 0 ∷ 71 ∷ 72 ∷ []) ∷ [])
        ≡ on_reads (opened accepted) es)
unfolding authorised
gateway_accepted_example =
    gateway_accepted ((accepted ++ (2 ∷ [])) ∷ (0 ∷ 0 ∷ 0 ∷ 0 ∷ 0 ∷ 71 ∷ 72 ∷ []) ∷ []) [] accepted
      small refl refl (omega arith) refl

gateway_refused_example :
    ((on_reads (waiting []) (other ∷ small ∷ [])).code ≡ fail 1)
    × ((on_reads (waiting []) (other ∷ small ∷ [])).delivered ≡ [])
unfolding authorised
gateway_refused_example =
    gateway_refused (other ∷ small ∷ []) [] other small refl refl (omega arith) refl
