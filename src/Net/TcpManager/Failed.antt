-- ===== src/Net/TcpManager/Failed.antt =====
-- A failed accept as the registry meets it: the error is reported under the key of the server, or
-- the new link cannot be read from. Where the call returns at all, the registry is as before.
use dolphin_core.Base.{ℕ, ◌/◌, ◌^◌, ◌≡◌, refl, arith, true, false, if_elim, Option-cases, inl, inr}
use dolphin_core.Base.Assoc.{elem, lookup, AllEntries-lookup}
use dolphin_core.Net.Shared.{get_object_id, link_bits}
use dolphin_core.Net.Returns.{IfReturns, >>=-IfReturns, IfReturns-of_Returns, any_result}
use dolphin_core.Net.TcpServer.{TcpServer, on_accept, next_link_id, server_on_error, assert_open}
use dolphin_core.Net.TcpManager.{
  TcpManager, client, server, lock, manager_on_accept, manager_on_error,
}
use dolphin_core.Net.TcpManager.Valid.{IsLive, IsPrepared, IsValid, switch-server}
use dolphin_core.Net.TcpManager.Handlers.{removed-IsValid}

-- A link that cannot be read from: the call does not return.
on_accept-unread : (rounds : ℕ) (s : TcpServer) → IfReturns (λ _. ⊥) (on_accept true false rounds s)
unfolding on_accept
on_accept-unread rounds s =
    >>=-IfReturns (λ _. Unit {0}) (λ _. ⊥) (assert_open s) _ (any_result (assert_open s))
      (λ _ _.
        >>=-IfReturns (λ _. Unit {0}) (λ _. ⊥) (next_link_id rounds s s.generate) _
          (any_result (next_link_id rounds s s.generate)) (λ _ _. tt))

module _ (m : TcpManager) (v : IsValid m) (k : ℕ) where
  pub unread-IfReturns : (rounds : ℕ) → IfReturns IsValid (manager_on_accept true false rounds k m)
  unfolding manager_on_accept lock
  unread-IfReturns rounds =
      if_elim (IfReturns IsValid) (elem (get_object_id k) m.idx_obj_map) _ _
        (λ _. elim (Option-cases (lookup (get_object_id k) m.vec_objs)) [
          | inl e ↦ rw (e, IfReturns) tt
          | inr (client c, e) ↦ rw (e, IfReturns) tt
          | inr (server s, e) ↦
              rw (e, IfReturns)
                (>>=-IfReturns (λ _. ⊥) IsValid (on_accept true false rounds s) _
                  (on_accept-unread rounds s) (λ _ e'. absurd e'))
        ])
        (λ _. v)

  -- An error under the key of a server.
  pub own_error-IfReturns :
      get_object_id k / 2 ^ 24 ≡ 2 → link_bits k ≡ 0 → IfReturns IsValid (manager_on_error k m)
  unfolding manager_on_error lock
  own_error-IfReturns t z =
      if_elim (IfReturns IsValid) (elem (get_object_id k) m.idx_obj_map) _ _
        (λ h. elim (Option-cases (lookup (get_object_id k) m.vec_objs)) [
          | inl e ↦ rw (e, IfReturns) tt
          | inr (client c, e) ↦
              let l : IsLive (get_object_id k) (client c) =
                AllEntries-lookup IsLive (get_object_id k) m.vec_objs v.live e in
              absurd (omega (arith, t, l.valid.typed))
          | inr (server s, e) ↦
              rw (e, switch-server (get_object_id k) s _ _ t)
                (>>=-IfReturns (λ _. Unit {0}) IsValid (server_on_error k s m.io) _
                  (any_result (server_on_error k s m.io))
                  (λ (s', io') _. IfReturns-of_Returns IsValid _ (
                    removed-IsValid k (get_object_id k) _ (server s') io' m refl v h
                      (λ b. absurd (omega (arith, b, z))))))
        ])
        (λ _. elim (Option-cases (lookup (get_object_id k) m.prepare)) [
          | inl e ↦ rw (e, IfReturns) v
          | inr (server s, e) ↦ rw (e, IfReturns) tt
          | inr (client c, e) ↦
              let p : IsPrepared (get_object_id k) (client c) =
                AllEntries-lookup IsPrepared (get_object_id k) m.prepare v.prepared e in
              absurd (omega (arith, t, p.typed))
        ])
