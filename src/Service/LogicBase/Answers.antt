-- ===== src/Service/LogicBase/Answers.antt =====
-- Heartbeats are answered while every object stands for a link of a server in a valid registry.
use dolphin_core.Base.{ℕ, ◌<◌, ◌≡◌, refl, Bool, if_elim}
use dolphin_core.Base.{List, none, some, Option, ◌==◌, ℤ, get_or}
use dolphin_core.Base.Assoc.{lookup, AllEntries, AllEntries-lookup}
use dolphin_core.Net.Shared.{link_bits, ◌>>=◌}
use dolphin_core.Net.Returns.{Returns, >>=-Returns}
use dolphin_core.Net.TcpManager.{TcpManager}
use dolphin_core.Net.TcpManager.Calls.{send_data}
use dolphin_core.Net.TcpManager.Valid.{IsValid}
use dolphin_core.Net.TcpManager.Handlers.{send_data-IsValid}
use dolphin_core.Serialize.MsgPack.{Zlib}
use dolphin_core.Service.MsgTrans.{encode_message}
use dolphin_core.Service.LogicObj.{
  LogicObj, LogicObjMap, Sending, send_cmd, on_check_signal, data_of, check_signal_ack,
  z_default_compression,
}

-- The key of an object's link names a link below a server.
abbrev pub IsLinked : ℕ → LogicObj → Type 0
IsLinked k obj = 0 < link_bits obj.link

pub send_cmd-Returns :
    (zip : Zlib) (pbuf : List ℕ) (level : ℤ) (obj : LogicObj) (net : Sending)
    → IsValid net.manager
    → 0 < link_bits obj.link
    → Returns (λ r. IsValid r.0.manager) (send_cmd zip pbuf level obj net)
unfolding send_cmd
send_cmd-Returns zip pbuf level obj net v h =
    let d = data_of (encode_message zip none pbuf level net.array).0 in
    >>=-Returns (λ (q : TcpManager × Bool). IsValid q.0) _ (send_data obj.link d net.manager) _
      (send_data-IsValid net.manager v obj.link d h) (λ q w. w)

pub on_check_signal-Returns :
    (zip : Zlib) (id : ℕ) (cmd : List ℕ) (objs : LogicObjMap) (net : Sending)
    → IsValid net.manager
    → AllEntries IsLinked objs
    → Returns (λ r. IsValid r.manager) (on_check_signal zip id cmd objs net)
unfolding on_check_signal
on_check_signal-Returns zip id cmd objs net v a =
    if_elim (Returns (λ (r : Sending). IsValid r.manager)) (get_or cmd 2 0 == 0) _ _ (λ _. v)
      (λ _. answered (lookup id objs) refl)
  where
    answered :
        (o : Option LogicObj)
        → lookup id objs ≡ o
        → Returns
            (λ r. IsValid r.manager)
            (elim o [
              | none ↦ some net
              | some obj ↦
                  send_cmd zip (check_signal_ack (get_or cmd 3 0)) z_default_compression obj net
                  >>= λ (net', ok). some net'
            ])
    answered none e = v
    answered (some obj) e =
        >>=-Returns (λ (r : Sending × Bool). IsValid r.0.manager) _
          (send_cmd zip (check_signal_ack (get_or cmd 3 0)) z_default_compression obj net) _
          (send_cmd-Returns zip (check_signal_ack (get_or cmd 3 0)) z_default_compression obj net v
            (AllEntries-lookup IsLinked id objs a e))
          (λ r w. w)
