-- ===== src/Ws/Hub/Sockets.antt =====
-- Histories of what happens to ship sockets: ws/hub.go with the callbacks of ws/gateway.go.
use maritime_simulation.Base.{
  ℕ, ◌≡◌, ◌≢◌, refl, true, false, List, [], ◌∷◌, some, arith, ◌&&◌, ◌==◌, inl, inr, Bool-cases, All,
  All-map, All-at, Any, sym, subst, ◌∙◌,
}
use maritime_simulation.Base.Text.{text_eq, text_eq_refl}
use maritime_simulation.Ws.Hub.{Hub, node_client, close, register_node, unregister_node, try_send}
use maritime_simulation.Ws.Hub.Registry.{register_node-node_client, unregister_node-node_client}
use maritime_simulation.Ws.Hub.Kept.{
  Current, close-Kept, close-closed, register_node-Kept, register_node-closed, unregister_node-Kept,
  try_send-Kept, Kept-Current, same_key, both, some_inj, eq_sym, ne_of, close-node_client,
  try_send-node_client,
}

-- What happens to ship sockets: HandleNodeWS registers one, the end of its `readPump` closes it
-- and unregisters it, and the hub sends to it or closes it.
pub data SocketEvent : Type 0 where
  connect teardown shut : ℕ → SocketEvent
  push : ℕ → List ℕ → SocketEvent

unfoldable pub on_event : SocketEvent → Hub → Hub
on_event (connect i) h = register_node i h
on_event (teardown i) h = (unregister_node i (close i h)).1
on_event (shut i) h = close i h
on_event (push i raw) h = (try_send i raw h).1

unfoldable pub on_events : List SocketEvent → Hub → Hub
on_events [] h = h
on_events (e ∷ es) h = on_events es (on_event e h)

connect-Current : (j i : ℕ) (h : Hub) → Current i h → Current i (register_node j h)
connect-Current j i h (inl e) = inl ((register_node-Kept j i h).2 e)
connect-Current j i h (inr e) =
    let a = h.clients j in
    let b = h.clients i in
    let (s, n, _) = register_node-Kept j i h in
    elim (Bool-cases (text_eq a.session_id b.session_id && text_eq a.node_id b.node_id)) [
      | inl same ↦
          let (p, q) = same_key a.session_id b.session_id a.node_id b.node_id same in
          inl (register_node-closed j i h (rw (p, q) e))
      | inr other ↦ inr (rw (s, n, register_node-node_client j b.session_id b.node_id h, other) e)
    ]

-- A socket that registers is current.
entry-Current : (i : ℕ) (h : Hub) → Current i (register_node i h)
entry-Current i h =
    let b = h.clients i in
    let (s, n, _) = register_node-Kept i i h in
    inr (
      rw
        (
          s,
          n,
          register_node-node_client i b.session_id b.node_id h,
          text_eq_refl b.session_id,
          text_eq_refl b.node_id,
        )
        refl)

unregister_node-own :
    (j : ℕ) (h : Hub)
    → (unregister_node j h).0 ≡ true
    → node_client (h.clients j).session_id (h.clients j).node_id h ≡ some j
unfolding unregister_node
unregister_node-own j h e = ground arith

unregister_other :
    (i j : ℕ) (h : Hub)
    → i ≢ j
    → node_client (h.clients i).session_id (h.clients i).node_id h ≡ some j
    → unregister_node i h ≡ (false, h)
unfolding unregister_node
unregister_other i j h ne e = ground arith

unregister_node-Current :
    (j i : ℕ) (h : Hub) → i ≢ j → Current i h → Current i (unregister_node j h).1
unregister_node-Current j i h _ (inl e) = inl ((unregister_node-Kept j i h).2 e)
unregister_node-Current j i h ne (inr e) =
    let a = h.clients j in
    let b = h.clients i in
    let (s, n, _) = unregister_node-Kept j i h in
    elim (Bool-cases (
      (unregister_node j h).0
      && (text_eq a.session_id b.session_id && text_eq a.node_id b.node_id))) [
        | inl own ↦
            let (o, same) = both (unregister_node j h).0 _ own in
            let (p, q) = same_key a.session_id b.session_id a.node_id b.node_id same in
            absurd (ne (some_inj i j (sym e ∙ rw (sym p, sym q) (unregister_node-own j h o))))
        | inr other ↦
            inr (rw (s, n, unregister_node-node_client j b.session_id b.node_id h, other) e)
      ]

close-Current : (j i : ℕ) (h : Hub) → Current i h → Current i (close j h)
close-Current j i h = Kept-Current i h (close j h) (close-Kept j i h) (close-node_client j h)

try_send-Current :
    (j : ℕ) (raw : List ℕ) (i : ℕ) (h : Hub) → Current i h → Current i (try_send j raw h).1
try_send-Current j raw i h =
    Kept-Current i h (try_send j raw h).1 (try_send-Kept j raw i h) (try_send-node_client j raw h)

teardown-Current : (j i : ℕ) (h : Hub) → Current i h → Current i (unregister_node j (close j h)).1
teardown-Current j i h c = elim (Bool-cases (i == j)) [
  | inl e ↦ inl (
      (unregister_node-Kept j i (close j h)).2
        (subst (λ x. ((close j h).clients x).closed ≡ true) (eq_sym i j e) (close-closed j h)))
  | inr e ↦ unregister_node-Current j i (close j h) (ne_of i j e) (close-Current j i h c)
]

on_event-Current : (e : SocketEvent) (i : ℕ) (h : Hub) → Current i h → Current i (on_event e h)
unfolding on_event
on_event-Current (connect j) i h = connect-Current j i h
on_event-Current (teardown j) i h = teardown-Current j i h
on_event-Current (shut j) i h = close-Current j i h
on_event-Current (push j raw) i h = try_send-Current j raw i h

-- The sockets that a history has registered, beside those of `is`.
unfoldable pub registered : List SocketEvent → List ℕ → List ℕ
registered [] is = is
registered (connect i ∷ es) is = registered es (i ∷ is)
registered (teardown _ ∷ es) is = registered es is
registered (shut _ ∷ es) is = registered es is
registered (push _ _ ∷ es) is = registered es is

step_Current :
    (e : SocketEvent) (is : List ℕ) (h : Hub)
    → All (λ i. Current i h) is
    → All (λ i. Current i (on_event e h)) is
step_Current e is h c =
    All-map (λ i. Current i h) (λ i. Current i (on_event e h)) (λ i. on_event-Current e i h) is c

-- Every socket that has registered is closed, or the registry points to it.
on_events-Current :
    (es : List SocketEvent) (is : List ℕ) (h : Hub)
    → All (λ i. Current i h) is
    → All (λ i. Current i (on_events es h)) (registered es is)
unfolding on_events registered on_event
on_events-Current [] is h c = c
on_events-Current (connect i ∷ es) is h c =
    on_events-Current es (i ∷ is) (on_event (connect i) h)
      (entry-Current i h, step_Current (connect i) is h c)
on_events-Current (teardown i ∷ es) is h c =
    on_events-Current es is (on_event (teardown i) h) (step_Current (teardown i) is h c)
on_events-Current (shut i ∷ es) is h c =
    on_events-Current es is (on_event (shut i) h) (step_Current (shut i) is h c)
on_events-Current (push i raw ∷ es) is h c =
    on_events-Current es is (on_event (push i raw) h) (step_Current (push i raw) is h c)

open_Current :
    (i : ℕ) (h : Hub)
    → Current i h
    → (h.clients i).closed ≡ false
    → node_client (h.clients i).session_id (h.clients i).node_id h ≡ some i
open_Current i h (inl c) o = ground arith
open_Current i h (inr e) o = e

-- Whatever connects, reconnects, teardowns, closes and sends happen in whatever order: of the
-- sockets that connected in the history, two that are open and of the same ship of the same
-- session are the same one.
pub one_open_socket :
    (es : List SocketEvent) (h : Hub) (i j : ℕ)
    → Any (λ k. k ≡ i) (registered es [])
    → Any (λ k. k ≡ j) (registered es [])
    → ((on_events es h).clients i).closed ≡ false
    → ((on_events es h).clients j).closed ≡ false
    → ((on_events es h).clients i).session_id ≡ ((on_events es h).clients j).session_id
    → ((on_events es h).clients i).node_id ≡ ((on_events es h).clients j).node_id
    → i ≡ j
one_open_socket es h i j mi mj oi oj s n =
    let k = on_events es h in
    let all = on_events-Current es [] h tt in
    let ei = open_Current i k (All-at (λ x. Current x k) (registered es []) i all mi) oi in
    let ej = open_Current j k (All-at (λ x. Current x k) (registered es []) j all mj) oj in
    some_inj i j (sym ei ∙ rw (s, n) ej)

-- A reconnect before the old socket's teardown: once `j` has connected as the ship of the open
-- socket `i`, the teardown of `i` finds `i` closed, is told that it is not the ship's socket, so
-- that the ship is not reported as disconnected, and leaves the ship online with `j`.
pub reconnect_race :
    (i j : ℕ) (h : Hub)
    → i ≢ j
    → node_client (h.clients i).session_id (h.clients i).node_id h ≡ some i
    → (h.clients j).session_id ≡ (h.clients i).session_id
    → (h.clients j).node_id ≡ (h.clients i).node_id
    → (((register_node j h).clients i).closed ≡ true)
      × (unregister_node i (register_node j h) ≡ (false, register_node j h))
      × (node_client (h.clients i).session_id (h.clients i).node_id (register_node j h) ≡ some j)
reconnect_race i j h ne e s n =
    let b = h.clients i in
    let at_j =
      register_node-node_client j b.session_id b.node_id h
      ∙ rw (s, n, text_eq_refl b.session_id, text_eq_refl b.node_id) refl in
    let (p, q, _) = register_node-Kept j i h in
    (
      register_node-closed j i h (rw (s, n) e),
      unregister_other i j (register_node j h) ne (rw (p, q) at_j),
      at_j,
    )
