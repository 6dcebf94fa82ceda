-- ===== src/Repository/Keys.antt =====
-- repository/keys.go: the keys of Redis.
use maritime_simulation.Base.{◌≡◌, refl, arith, false, ◌&&◌, [], ◌∷◌, ◌++◌, ◌==◌, All, ◌∙◌}
use maritime_simulation.Base.Text.{Text, codes, text_eq}

-- keyGeo
unfoldable pub key_geo : Text → Text
key_geo sid = codes "sim:" ++ (sid ++ codes ":geo")

-- keyRoutes
unfoldable pub key_routes : Text → Text
key_routes sid = codes "sim:" ++ (sid ++ codes ":routes")

-- keyRoutesFull
unfoldable pub key_routes_full : Text → Text
key_routes_full sid = codes "sim:" ++ (sid ++ codes ":routes_full")

-- keyDedup
unfoldable pub key_dedup : Text → Text → Text → Text
key_dedup sid packet receiver =
    codes "sim:" ++ (sid ++ (codes ":dedup:" ++ (packet ++ (codes ":" ++ receiver))))

-- keyParams
unfoldable pub key_params : Text → Text
key_params sid = codes "sim:" ++ (sid ++ codes ":params")

-- keyStats
unfoldable pub key_stats : Text → Text
key_stats sid = codes "sim:" ++ (sid ++ codes ":stats")

-- keyPingLimit
unfoldable pub key_ping_limit : Text → Text → Text
key_ping_limit sid node = codes "sim:" ++ (sid ++ (codes ":pinglimit:" ++ node))

-- keyAckSender
unfoldable pub key_ack_sender : Text → Text → Text → Text
key_ack_sender sid packet receiver =
    codes "sim:" ++ (sid ++ (codes ":acksender:" ++ (packet ++ (codes ":" ++ receiver))))

-- The text has no colon.
abbrev pub IsPlain : Text → Type 0
IsPlain t = All (λ c. c == b':' ≡ false) t

split_at_colon :
    (a b x y : Text) → IsPlain a → IsPlain b → a ++ (b':' ∷ x) ≡ b ++ (b':' ∷ y) → (a ≡ b) × (x ≡ y)
split_at_colon [] [] x y p q e = ground arith
split_at_colon [] (c ∷ b) x y p q e = ground arith
split_at_colon (c ∷ a) [] x y p q e = ground arith
split_at_colon (c ∷ a) (d ∷ b) x y (p, ps) (q, qs) e = ground (arith, split_at_colon a b x y ps qs)

strip_front : (p x y : Text) → p ++ x ≡ p ++ y → x ≡ y
strip_front [] x y e = e
strip_front (c ∷ p) x y e = strip_front p x y (ground arith)

-- Two packets at two receivers have different keys, in whatever sessions they are, if none of the
-- identifiers has a colon.
pub key_dedup_injective :
    (s t p q r u : Text)
    → IsPlain s
    → IsPlain t
    → IsPlain p
    → IsPlain q
    → key_dedup s p r ≡ key_dedup t q u
    → (s ≡ t) × (p ≡ q) × (r ≡ u)
unfolding key_dedup
key_dedup_injective s t p q r u a b c d e =
    let (f, g) =
      split_at_colon s t (codes "dedup:" ++ (p ++ (codes ":" ++ r)))
        (codes "dedup:" ++ (q ++ (codes ":" ++ u))) a b (strip_front (codes "sim:") _ _ e) in
    let (h, i) = split_at_colon p q r u c d (strip_front (codes "dedup:") _ _ g) in (f, h, i)

text_eq-append : (p x y : Text) → text_eq (p ++ x) (p ++ y) ≡ text_eq x y
unfolding text_eq
text_eq-append [] x y = refl
text_eq-append (c ∷ p) x y = ground (arith, text_eq-append p x y)

-- The two hashes of a routing table are different keys.
pub key_routes_differ : (sid : Text) → text_eq (key_routes sid) (key_routes_full sid) ≡ false
unfolding key_routes key_routes_full text_eq
key_routes_differ sid = text_eq-append sid (codes ":routes") (codes ":routes_full")

text_eq-colon :
    (p q r u : Text)
    → IsPlain p
    → IsPlain q
    → text_eq (p ++ (b':' ∷ r)) (q ++ (b':' ∷ u)) ≡ (text_eq p q && text_eq r u)
unfolding text_eq
text_eq-colon [] [] r u a b = refl
text_eq-colon [] (d ∷ q) r u a b = ground arith
text_eq-colon (c ∷ p) [] r u a b = ground arith
text_eq-colon (c ∷ p) (d ∷ q) r u (_, a) (_, b) = ground (arith, text_eq-colon p q r u a b)

-- Within a session, the comparison of two keys is that of the pairs.
pub key_dedup_eq :
    (sid p q r u : Text)
    → IsPlain p
    → IsPlain q
    → text_eq (key_dedup sid p r) (key_dedup sid q u) ≡ (text_eq p q && text_eq r u)
unfolding key_dedup text_eq
key_dedup_eq sid p q r u a b =
    text_eq-append sid (codes ":dedup:" ++ (p ++ (codes ":" ++ r)))
      (codes ":dedup:" ++ (q ++ (codes ":" ++ u)))
    ∙ text_eq-colon p q r u a b
