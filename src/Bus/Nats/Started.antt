-- ===== src/Bus/Nats/Started.antt =====
-- When a NATS bus is started, and what a start that fails leaves.
use microservice_game_servic.Base.{
  ℕ, suc, ◌<◌, ◌≡◌, refl, Bool, true, not, ◌&&◌, List, [], ◌∷◌, nat_beq, select, if◌then◌else◌,
  arith,
}
use microservice_game_servic.Bus.Nats.{NatsBus, subscribe_both, start}

-- Every subscription of the connection was numbered before `next`.
abbrev pub Numbered : ℕ → List ℕ → Type 0
Numbered n [] = Unit {0}
Numbered n (s ∷ live) = (s < n) × Numbered n live

select-Numbered :
    (n : ℕ) (live : List ℕ) → Numbered n live → select (λ i. not (nat_beq i n)) live ≡ live
select-Numbered n [] h = refl
select-Numbered n (s ∷ live) h = ground (arith, select-Numbered n live h.1)

-- Where the subscriptions are numbered in turn, Start succeeds on exactly a bus that has a
-- handler, is not started and gets both subscriptions, and then the connection serves two more;
-- otherwise it serves those that it did, and a bus that was not started is not.
pub start_lem :
    (broadcast_ok kick_ok : Bool) (b : NatsBus)
    → Numbered b.next b.live
    → ((start broadcast_ok kick_ok b).1.live ≡ (
        if (not b.started && b.handler_set) && (broadcast_ok && kick_ok)
        then suc b.next ∷ b.next ∷ b.live
        else b.live))
      × ((start broadcast_ok kick_ok b).1.started
          ≡ (if b.started then true else b.handler_set && (broadcast_ok && kick_ok)))
unfolding start subscribe_both
start_lem broadcast_ok kick_ok b h = (ground (arith, select-Numbered b.next b.live h), ground arith)
