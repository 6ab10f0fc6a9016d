-- ===== src/Net/Writes/Order.antt =====
-- SendMessage and OnAsyncWrite of src/net/tcp/tcp_link.cpp in any order.
use dolphin_core.Base.{
  ℕ, ◌≡◌, refl, sym, ap, ◌∙◌, true, List, [], ◌∷◌, ◌++◌, Option, none, some, if◌then◌else◌,
  append-nil, append_assoc,
}
use dolphin_core.Net.Shared.{Io, ◌>>=◌}
use dolphin_core.Net.Returns.{Returns, >>=-Returns, Returns-weaken}
use dolphin_core.Net.TcpLink.Send.{TcpLink, send_message, on_async_write}

-- What one thread sends on a link and when another hands it on.
pub data LinkOp : Type 0 where
  sends : List ℕ → LinkOp
  hands : LinkOp

unfoldable pub link_run : List LinkOp → TcpLink → Io → Option (TcpLink × Io)
unfolding send_message on_async_write
link_run [] l io = some (l, io)
link_run (sends d ∷ ops) l io = let (l', io') = send_message d l io in link_run ops l' io'
link_run (hands ∷ ops) l io = on_async_write true l >>= λ l'. link_run ops l' io

abbrev pub sent : List LinkOp → List (List ℕ)
sent [] = []
sent (sends d ∷ ops) = d ∷ sent ops
sent (hands ∷ ops) = sent ops

on_async_write_keeps :
    (l : TcpLink)
    → l.opened ≡ true
    → Returns
        (λ l'. (l'.opened ≡ true) × (l'.handed ++ l'.write_queue ≡ l.handed ++ l.write_queue))
        (on_async_write true l)
unfolding on_async_write
on_async_write_keeps l o = go l.write_queue refl
  where
    Q : TcpLink → Type 0
    Q l' = (l'.opened ≡ true) × (l'.handed ++ l'.write_queue ≡ l.handed ++ l.write_queue)

    after : List (List ℕ) → Option TcpLink
    after q = elim q [
      | [] ↦ some l
      | d ∷ ds ↦
          if l.opened
          then some (record l { write_queue = []; handed = l.handed ++ (d ∷ ds) })
          else none
    ]

    go : (q : List (List ℕ)) → l.write_queue ≡ q → Returns Q (after q)
    go [] e = (o, refl)
    go (d ∷ ds) e = rw o (refl, append-nil (l.handed ++ (d ∷ ds)) ∙ ap (◌++◌ l.handed) (sym e))

-- As long as libuv takes what it is given, an open link hands on what is sent in the order in
-- which it is sent: what was handed on and what waits is together all of it, at any time.
pub link_run_order :
    (ops : List LinkOp) (l : TcpLink) (io : Io)
    → l.opened ≡ true
    → Returns
        (λ r. r.0.handed ++ r.0.write_queue ≡ (l.handed ++ l.write_queue) ++ sent ops)
        (link_run ops l io)
unfolding send_message link_run
link_run_order [] l io o = sym (append-nil (l.handed ++ l.write_queue))
link_run_order (sends d ∷ ops) l io o =
    Returns-weaken
      (λ (r : TcpLink × Io).
        r.0.handed ++ r.0.write_queue ≡ (l.handed ++ (l.write_queue ++ (d ∷ []))) ++ sent ops)
      _ (link_run ops _ _) (link_run_order ops (send_message d l io).0 (send_message d l io).1 o)
      (λ r e. e ∙ simp append_assoc refl)
link_run_order (hands ∷ ops) l io o =
    >>=-Returns
      (λ l'. (l'.opened ≡ true) × (l'.handed ++ l'.write_queue ≡ l.handed ++ l.write_queue)) _
      (on_async_write true l) _ (on_async_write_keeps l o)
      (λ l' (o', e). rw e at (link_run_order ops l' io o'))
