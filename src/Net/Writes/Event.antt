-- ===== src/Net/Writes/Event.antt =====
-- LinkWriteEvent as a round over the keys of links.
use dolphin_core.Base.{
  ℕ, ◌/◌, ◌^◌, ◌<◌, ◌≡◌, ◌≢◌, refl, arith, Bool, true, List, [], ◌∷◌, Option, none, some, ◌==◌,
  ==_iff, Bool-cases, inl, inr,
}
use dolphin_core.Base.Assoc.{elem}
use dolphin_core.Net.Shared.{get_object_id, link_bits}
use dolphin_core.Net.Returns.{Returns, >>=-Returns, Returns-weaken, IfReturns}
use dolphin_core.Net.TcpManager.{TcpManager, on_write}
use dolphin_core.Net.TcpManager.Valid.{IsValid, io-IsValid}
use dolphin_core.Net.TcpManager.Callbacks.{on_write-IsValid}
use dolphin_core.Net.Libuv.{each, link_write_event}
use dolphin_core.Net.Writes.{pending, Drains, on_write-Drains}

Returns-both {ℓ} :
    {A : Type ℓ} (P Q : A → Type 0) (o : Option A)
    → Returns P o
    → IfReturns Q o
    → Returns (λ a. P a × Q a) o
Returns-both P Q none p q = p
Returns-both P Q (some a) p q = (p, q)

-- The keys of links: below a client any, below a server its links'.
abbrev pub AllLinkKeys : List ℕ → Type 0
AllLinkKeys [] = Unit
AllLinkKeys (k ∷ ks) = (get_object_id k / 2 ^ 24 ≢ 1 → 0 < link_bits k) × AllLinkKeys ks

-- What a round over the keys leaves.
record IsDrained (ks : List ℕ) (m m' : TcpManager) : Type 0 where
  valid : IsValid m'
  drained : (k : ℕ) → elem k ks ≡ true → pending k m' ≡ []
  stays : (k : ℕ) → pending k m ≡ [] → pending k m' ≡ []

each_write-IsDrained :
    (ok : ℕ → Bool) (ks : List ℕ) (m : TcpManager)
    → IsValid m
    → AllLinkKeys ks
    → Returns (IsDrained ks m) (each (λ k. on_write (ok k) k) ks m)
unfolding on_write
each_write-IsDrained ok [] m v a = record {
  valid = v;
  drained = λ k h. absurd (ground (arith, h));
  stays = λ k h. h;
}
each_write-IsDrained ok (k ∷ ks) m v (b, a) =
    >>=-Returns (λ m1. IsValid m1 × Drains k (λ j. pending j m) (λ j. pending j m1))
      (IsDrained (k ∷ ks) m) (on_write (ok k) k m) _
      (Returns-both IsValid _ (on_write (ok k) k m) (on_write-IsValid m v k (ok k) b)
        (on_write-Drains (ok k) k m v))
      (λ m1 (v1, (d, st)).
        Returns-weaken (IsDrained ks m1) (IsDrained (k ∷ ks) m)
          (each (λ j. on_write (ok j) j) ks m1) (each_write-IsDrained ok ks m1 v1 a)
          (λ m' r. record {
            valid = r.valid;
            drained = λ j h. elim (Bool-cases (k == j)) [
              | inl t ↦ let same : k ≡ j = (==_iff k j).0 t in r.stays j (rw same at d)
              | inr f ↦ r.drained j (ground (arith, h, f))
            ];
            stays = λ j h. r.stays j (st j h);
          }))

-- LinkWriteEvent goes through all keys that were queued, whatever libuv answers, and afterwards
-- nothing waits on any of their links.
pub link_write_event_drains :
    (ok : ℕ → Bool) (m : TcpManager)
    → IsValid m
    → AllLinkKeys m.io.write_queue
    → (m' : TcpManager) × (link_write_event ok m ≡ some m')
      × IsValid m'
      × ((k : ℕ) → elem k m.io.write_queue ≡ true → pending k m' ≡ [])
unfolding link_write_event
link_write_event_drains ok m v a =
    go (link_write_event ok m) refl
      (each_write-IsDrained ok m.io.write_queue m1 (io-IsValid _ m v) a)
  where
    m1 : TcpManager
    m1 = record m { io = record (m.io) { write_queue = [] } }

    go :
        (q : Option TcpManager)
        → link_write_event ok m ≡ q
        → Returns (IsDrained m.io.write_queue m1) q
        → (m' : TcpManager) × (link_write_event ok m ≡ some m')
          × IsValid m'
          × ((k : ℕ) → elem k m.io.write_queue ≡ true → pending k m' ≡ [])
    go none e r = absurd r
    go (some m') e r = (m', e, r.valid, r.drained)
