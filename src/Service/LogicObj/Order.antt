-- ===== src/Service/LogicObj/Order.antt =====
-- What an object sends through its cache, on a link of a server.
use dolphin_core.Base.{ℕ, ◌≡◌, refl, ap, ◌∙◌, sym, arith, Bool, true, inl, inr, Bool-cases}
use dolphin_core.Base.{List, [], ◌∷◌, ◌++◌, some, Option, length, ℤ, concat}
use dolphin_core.Base.{◌&&◌, append-nil, ◌==◌, concat-append}
use dolphin_core.Net.Shared.{◌>>=◌}
use dolphin_core.Net.Returns.{Returns}
use dolphin_core.Net.Writes.{pending}
use dolphin_core.Net.Writes.Sends.{IsOn, send_data-IsOn}
use dolphin_core.Serialize.MsgPack.{Zlib}
use dolphin_core.Service.LogicObj.{LogicObj, Sending, send_cache, send_cmd_delay}

-- What the object has sent and not yet sent: the bytes that wait on its link, and the cache.
abbrev pub outgoing : LogicObj → Sending → List ℕ
outgoing obj net = concat (pending obj.link net.manager) ++ obj.cache

-- SendCmdDelay with each of a list of messages, and whether each of the calls returned true.
abbrev pub send_all :
    Zlib → List (List ℕ) → ℤ → LogicObj → Sending → Option (LogicObj × Sending × Bool)
send_all zip [] level obj net = some (obj, net, true)
send_all zip (pbuf ∷ ms) level obj net =
    send_cmd_delay zip pbuf level obj net >>= λ (obj', net', ok).
    send_all zip ms level obj' net' >>= λ (obj'', net'', oks). some (obj'', net'', ok && oks)

-- What a call gives that succeeds and adds the bytes `p` to what goes out.
pub record Adds (p : List ℕ) (obj : LogicObj) (net : Sending) (array : List ℕ)
    (r : LogicObj × Sending × Bool) : Type 0 where
  pub ok : r.2 ≡ true
  pub same_link : r.0.link ≡ obj.link
  pub on : IsOn r.0.link r.1.manager
  pub bytes : outgoing r.0 r.1 ≡ outgoing obj net ++ p
  pub kept : r.1.array ≡ array

-- Flushing the cache changes nothing of what goes out.
pub send_cache-Adds :
    (obj : LogicObj) (net : Sending)
    → IsOn obj.link net.manager
    → Returns (λ r. Adds [] obj net net.array r × (r.0.cache ≡ [])) (send_cache obj net)
unfolding send_cache
send_cache-Adds obj net on = elim (Bool-cases (length obj.cache == 0)) [
  | inl e ↦ rw e (
    record {
      ok = refl;
      same_link = refl;
      on = on;
      bytes = sym (append-nil (outgoing obj net));
      kept = refl;
    },
    nil obj.cache e,
  )
  | inr e ↦
      let (m', sent, on', waits) = send_data-IsOn obj.link net.manager obj.cache on in
      rw (e, sent)
        (
          record {
            ok = refl;
            same_link = refl;
            on = on';
            bytes = ap (λ u. concat u ++ []) waits ∙ flushed;
            kept = refl;
          },
          refl,
        )
]
  where
    flushed :
        concat (pending obj.link net.manager ++ (obj.cache ∷ [])) ++ [] ≡ outgoing obj net ++ []
    flushed =
        ap (λ u. u ++ [])
          (concat-append (pending obj.link net.manager) (obj.cache ∷ [])
            ∙ ap (λ u. concat (pending obj.link net.manager) ++ u) (append-nil obj.cache))

    nil : (xs : List ℕ) → (length xs == 0) ≡ true → xs ≡ []
    nil [] h = refl
    nil (x ∷ xs) h = absurd (ground arith)
