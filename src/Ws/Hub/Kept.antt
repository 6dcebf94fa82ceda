-- ===== src/Ws/Hub/Kept.antt =====
-- What an operation of the hub leaves of a socket.
use maritime_simulation.Base.{
  ℕ, ◌≡◌, ◌≢◌, refl, Bool, true, false, List, Option, none, some, arith, ◌&&◌, ◌==◌, inl, inr,
  Bool-cases, ◌⊎◌,
}
use maritime_simulation.Base.Text.{Text, text_eq, text_eq_iff}
use maritime_simulation.Ws.Hub.{
  Hub, node_client, close, close_old, register_node, unregister_node, try_send, entered,
}

-- The socket is closed, or the registry points to it.
abbrev pub Current : ℕ → Hub → Type 0
Current i h =
    ((h.clients i).closed ≡ true)
    ⊎ (node_client (h.clients i).session_id (h.clients i).node_id h ≡ some i)

-- A socket stays with its ship, and a closed one stays closed.
abbrev pub Kept : ℕ → Hub → Hub → Type 0
Kept i h k =
    ((k.clients i).session_id ≡ (h.clients i).session_id)
    × ((k.clients i).node_id ≡ (h.clients i).node_id)
    × ((h.clients i).closed ≡ true → (k.clients i).closed ≡ true)

pub close-Kept : (j i : ℕ) (h : Hub) → Kept i h (close j h)
unfolding close
close-Kept j i h = elim (Bool-cases (i == j)) [
  | inl e ↦ rw e (ground arith)
  | inr e ↦ rw e (refl, refl, λ z. z)
]

pub close-closed : (i : ℕ) (h : Hub) → ((close i h).clients i).closed ≡ true
unfolding close
close-closed i h = ground arith

pub close_old-Kept : (o : Option ℕ) (i : ℕ) (h : Hub) → Kept i h (close_old o h)
close_old-Kept none i h = (refl, refl, λ z. z)
close_old-Kept (some j) i h = close-Kept j i h

pub close_old-closed :
    (o : Option ℕ) (i : ℕ) (h : Hub) → o ≡ some i → ((close_old o h).clients i).closed ≡ true
close_old-closed none i h e = cc
close_old-closed (some j) i h e = ground (arith, close-closed j h)

pub register_node-Kept : (j i : ℕ) (h : Hub) → Kept i h (register_node j h)
unfolding register_node
register_node-Kept j i h =
    close_old-Kept (node_client (h.clients j).session_id (h.clients j).node_id h) i (entered j h)

pub register_node-closed :
    (j i : ℕ) (h : Hub)
    → node_client (h.clients j).session_id (h.clients j).node_id h ≡ some i
    → ((register_node j h).clients i).closed ≡ true
unfolding register_node
register_node-closed j i h e =
    close_old-closed (node_client (h.clients j).session_id (h.clients j).node_id h) i (entered j h)
      e

pub unregister_node-Kept : (j i : ℕ) (h : Hub) → Kept i h (unregister_node j h).1
unfolding unregister_node
unregister_node-Kept j i h = ground arith

pub try_send-Kept : (j : ℕ) (raw : List ℕ) (i : ℕ) (h : Hub) → Kept i h (try_send j raw h).1
unfolding try_send
try_send-Kept j raw i h = ground arith

-- What closes a socket or leaves the registry alone keeps it current.
pub Kept-Current :
    (i : ℕ) (h k : Hub)
    → Kept i h k
    → ((sid node : Text) → node_client sid node k ≡ node_client sid node h)
    → Current i h
    → Current i k
Kept-Current i h k (s, n, c) same (inl e) = inl (c e)
Kept-Current i h k (s, n, c) same (inr e) =
    inr (rw (s, n, same (h.clients i).session_id (h.clients i).node_id) e)

pub same_key : (a b c d : Text) → text_eq a b && text_eq c d ≡ true → (a ≡ b) × (c ≡ d)
same_key a b c d h = ground (arith, text_eq_iff a b, text_eq_iff c d)

pub both : (x y : Bool) → x && y ≡ true → (x ≡ true) × (y ≡ true)
both x y h = ground arith

pub some_inj : (i j : ℕ) → some i ≡ some j → i ≡ j
some_inj i j e = ground arith

pub eq_sym : (i j : ℕ) → i == j ≡ true → j ≡ i
eq_sym i j e = ground arith

pub ne_of : (i j : ℕ) → i == j ≡ false → i ≢ j
ne_of i j h e = ground arith

pub close-node_client :
    (j : ℕ) (h : Hub) (sid node : Text) → node_client sid node (close j h) ≡ node_client sid node h
unfolding close node_client
close-node_client j h sid node = refl

pub try_send-node_client :
    (j : ℕ) (raw : List ℕ) (h : Hub) (sid node : Text)
    → node_client sid node (try_send j raw h).1 ≡ node_client sid node h
unfolding try_send node_client
try_send-node_client j raw h sid node = ground arith
