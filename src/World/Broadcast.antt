-- ===== src/World/Broadcast.antt =====
-- The broadcasts of server_src/room.c: to send is all they do.
use tmwmf_sem_ups.Base.{
  ℕ, zero, suc, ◌+◌, ◌≡◌, refl, ◌∙◌, ap, Option, none, some, List, get_or, Bool-cases, inl, inr,
}
use tmwmf_sem_ups.World.{
  World, Message, can_receive, client_send_message, is_other, send_to, broadcast_loop,
  room_broadcast_except, room_broadcast,
}

-- The second world is the first but for the messages.
abbrev pub OnlySends : World → World → Type 0
OnlySends w w' = w' ≡ record w { outbox = w'.outbox }

pub OnlySends-trans : (u v w : World) → OnlySends u v → OnlySends v w → OnlySends u w
OnlySends-trans u v w e f = f ∙ ap (λ (x : World). record x { outbox = w.outbox }) e

pub client_send_message-OnlySends :
    (w : World) (c : ℕ) (message : Message) → OnlySends w (client_send_message w c message)
unfolding client_send_message
client_send_message-OnlySends w c message = elim (Bool-cases (can_receive (w.client c))) [
  | inl t ↦ rw t refl
  | inr f ↦ rw f refl
]

send_to-OnlySends :
    (w : World) (p : Option ℕ) (message : Message) (exclude : Option ℕ)
    → OnlySends w (send_to w p message exclude)
unfolding send_to
send_to-OnlySends w none message exclude = refl
send_to-OnlySends w (some c) message exclude = elim (Bool-cases (is_other exclude c)) [
  | inl t ↦ rw t (client_send_message-OnlySends w c message)
  | inr f ↦ rw f refl
]

broadcast_loop-OnlySends :
    (n i : ℕ) (w : World) (players : List (Option ℕ)) (message : Message) (exclude : Option ℕ)
    → OnlySends w (broadcast_loop n i w players message exclude)
unfolding broadcast_loop
broadcast_loop-OnlySends zero i w players message exclude = refl
broadcast_loop-OnlySends (suc n) i w players message exclude =
    OnlySends-trans w (send_to w (get_or players i none) message exclude)
      (broadcast_loop n (i + 1) (send_to w (get_or players i none) message exclude) players message
        exclude)
      (send_to-OnlySends w (get_or players i none) message exclude)
      (broadcast_loop-OnlySends n (i + 1) (send_to w (get_or players i none) message exclude)
        players message exclude)

pub room_broadcast_except-OnlySends :
    (w : World) (r : ℕ) (message : Message) (exclude : Option ℕ)
    → OnlySends w (room_broadcast_except w r message exclude)
unfolding room_broadcast_except
room_broadcast_except-OnlySends w r message exclude =
    broadcast_loop-OnlySends 4 0 w (w.room r).players message exclude

pub room_broadcast-OnlySends :
    (w : World) (r : ℕ) (message : Message) → OnlySends w (room_broadcast w r message)
unfolding room_broadcast room_broadcast_except
room_broadcast-OnlySends w r message =
    broadcast_loop-OnlySends 4 0 w (w.room r).players message none
