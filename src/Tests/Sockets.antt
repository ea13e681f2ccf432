-- ===== src/Tests/Sockets.antt =====
-- The hub with two clients, one of whose connections breaks.
use go_template_aerospike.Prelude.{ℕ, text, List, [], ◌∷◌, refl, ◌==◌}
use go_template_aerospike.Hub.{Hub, new_hub, register, broadcast, take_register, take_broadcast}
use go_template_aerospike.Hub.Laws.{
  IsApart, IsOrder, Reach, here, next, registers, broadcasts, takes_register, takes_broadcast,
  Reach-IsApart,
}

abbrev order : List ℕ → List ℕ
order cs = cs

order-IsOrder : IsOrder order
order-IsOrder c cs = refl

abbrev waiting : Hub
waiting = record new_hub { register_ch = 5 ∷ [] }

abbrev sent : Hub
sent = broadcast (text "hello") (take_register (5 ∷ []) waiting)

sent-Reach : Reach order sent
unfolding register
sent-Reach =
    next (next (next here (registers 5 new_hub waiting refl refl)) (takes_register waiting))
      (broadcasts (text "hello") (take_register (5 ∷ []) waiting))

broken-Reach : Reach order (take_broadcast order (λ c. c == 5) sent.broadcast_ch sent)
broken-Reach = next sent-Reach (takes_broadcast (λ c. c == 5) sent)

Reach-IsApart_example : IsApart (take_broadcast order (λ c. c == 5) sent.broadcast_ch sent)
Reach-IsApart_example = Reach-IsApart order order-IsOrder broken-Reach
