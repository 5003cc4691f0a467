-- ===== src/Manager/Sends.antt =====
-- What send_all and send_names of the file commands leave in the state of the group.
use mathlib.Core.List.{append-nil, append_assoc}
use dis_co_tec.Prelude.{ℕ, ◌≡◌, refl, ◌∙◌, List, [], ◌∷◌, ◌++◌, map, sym}
use dis_co_tec.Manager.Signals.{Signal}
use dis_co_tec.Manager.{Message, signal, archive, Group, send, send_signal_and_receive}
use dis_co_tec.Manager.Files.{send_all, send_names}
use dis_co_tec.Manager.Mirror.{Mirrored, IsQuiet, quiet-Mirrored}

send_all-sent : (ms : List Message) (g : Group) → (send_all ms g).sent ≡ g.sent ++ ms
unfolding send_all send
send_all-sent [] g = sym (append-nil g.sent)
send_all-sent (m ∷ ms) g = send_all-sent ms (send m g) ∙ append_assoc g.sent (m ∷ []) ms

send_all-tasks : (ms : List Message) (g : Group) → (send_all ms g).tasks ≡ g.tasks
unfolding send_all send
send_all-tasks [] g = refl
send_all-tasks (m ∷ ms) g = send_all-tasks ms (send m g)

send_all-posted : (ms : List Message) (g : Group) → (send_all ms g).posted ≡ g.posted
unfolding send_all send
send_all-posted [] g = refl
send_all-posted (m ∷ ms) g = send_all-posted ms (send m g)

pub send_names-tasks :
    (s : Signal) (names : List (List ℕ)) (g : Group) → (send_names s names g).tasks ≡ g.tasks
unfolding send_names
send_names-tasks s names g = send_all-tasks (map archive names) (send_signal_and_receive s g)

-- If the worker answers the signal with its names and keeps its tasks, both sides agree again.
pub send_names-Mirrored :
    (s : Signal) (names : List (List ℕ)) (g : Group)
    → IsQuiet (signal s ∷ map archive names)
    → Mirrored g
    → Mirrored (send_names s names g)
unfolding send_names send_signal_and_receive
send_names-Mirrored s names g quiet m =
    quiet-Mirrored g _ (signal s ∷ map archive names) quiet m
      (send_all-sent (map archive names) (send_signal_and_receive s g)
        ∙ append_assoc g.sent (signal s ∷ []) (map archive names))
      (send_all-tasks (map archive names) (send_signal_and_receive s g))
      (send_all-posted (map archive names) (send_signal_and_receive s g))
