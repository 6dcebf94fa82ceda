-- ===== src/Ws/Hub/Registry.antt =====
-- The registry of ship sockets over connects, reconnects and disconnects.
use maritime_simulation.Base.{
  ℕ, ◌≡◌, refl, [], ◌∷◌, Option, none, some, ◌&&◌, if◌then◌else◌, ◌∙◌, inl, inr, Bool-cases,
}
use maritime_simulation.Base.Text.{Text, text_eq, text_eq_iff}
use maritime_simulation.Base.Dict.{Dict, lookup, insert, erase, lookup-insert, lookup-erase}
use maritime_simulation.Ws.Hub.{
  Hub, node_client, or_empty, close, close_old, register_node, unregister_node, tidy, points_to,
}

close_old-node_client :
    (o : Option ℕ) (sid node : Text) (h : Hub)
    → node_client sid node (close_old o h) ≡ node_client sid node h
unfolding node_client close
close_old-node_client none sid node h = refl
close_old-node_client (some i) sid node h = refl

-- A write below one key of a map of maps.
lookup-insert_deep :
    (k j : Text) (n m : Text) (i : ℕ) (d : Dict (Dict ℕ))
    → lookup m (or_empty (lookup j (insert k (insert n i (or_empty (lookup k d))) d)))
      ≡ (if text_eq k j && text_eq n m then some i else lookup m (or_empty (lookup j d)))
lookup-insert_deep k j n m i d = elim (Bool-cases (text_eq k j)) [
  | inl e ↦
      rw
        (
          lookup-insert k j (insert n i (or_empty (lookup k d))) d,
          e,
          lookup-insert n m i (or_empty (lookup k d)),
          (text_eq_iff k j).0 e,
        )
        refl
  | inr e ↦ rw (lookup-insert k j (insert n i (or_empty (lookup k d))) d, e) refl
]

lookup-tidy :
    (k j : Text) (xs : Dict ℕ) (d : Dict (Dict ℕ))
    → or_empty (lookup j (tidy k xs d)) ≡ (if text_eq k j then xs else or_empty (lookup j d))
lookup-tidy k j [] d = elim (Bool-cases (text_eq k j)) [
  | inl e ↦ rw (lookup-erase k j d, e) refl
  | inr e ↦ rw (lookup-erase k j d, e) refl
]
lookup-tidy k j (x ∷ xs) d = elim (Bool-cases (text_eq k j)) [
  | inl e ↦ rw (lookup-insert k j (x ∷ xs) d, e) refl
  | inr e ↦ rw (lookup-insert k j (x ∷ xs) d, e) refl
]

lookup-erase_deep :
    (k j : Text) (n m : Text) (d : Dict (Dict ℕ))
    → lookup m (or_empty (lookup j (tidy k (erase n (or_empty (lookup k d))) d)))
      ≡ (if text_eq k j && text_eq n m then none else lookup m (or_empty (lookup j d)))
lookup-erase_deep k j n m d = elim (Bool-cases (text_eq k j)) [
  | inl e ↦
      rw
        (
          lookup-tidy k j (erase n (or_empty (lookup k d))) d,
          e,
          lookup-erase n m (or_empty (lookup k d)),
          (text_eq_iff k j).0 e,
        )
        refl
  | inr e ↦ rw (lookup-tidy k j (erase n (or_empty (lookup k d))) d, e) refl
]

-- The registry after a connect: the ship's entry is the new socket, and no other entry changed.
pub register_node-node_client :
    (i : ℕ) (sid node : Text) (h : Hub)
    → node_client sid node (register_node i h) ≡ (
        if text_eq (h.clients i).session_id sid && text_eq (h.clients i).node_id node
        then some i
        else node_client sid node h)
unfolding node_client close register_node
register_node-node_client i sid node h =
    close_old-node_client
      (lookup (h.clients i).node_id (or_empty (lookup (h.clients i).session_id h.nodes))) sid node _
    ∙ lookup-insert_deep (h.clients i).session_id sid (h.clients i).node_id node i h.nodes

-- The registry after a disconnect: the ship's entry is gone if it was this very socket, and no
-- other entry changed.
pub unregister_node-node_client :
    (i : ℕ) (sid node : Text) (h : Hub)
    → node_client sid node (unregister_node i h).1 ≡ (
        if (unregister_node i h).0
          && (text_eq (h.clients i).session_id sid && text_eq (h.clients i).node_id node)
        then none
        else node_client sid node h)
unfolding node_client unregister_node
unregister_node-node_client i sid node h =
    elim (Bool-cases (
      points_to i
        (lookup (h.clients i).node_id (or_empty (lookup (h.clients i).session_id h.nodes))))) [
          | inl e ↦
              rw e
                (lookup-erase_deep (h.clients i).session_id sid (h.clients i).node_id node h.nodes)
          | inr e ↦ rw e refl
        ]
