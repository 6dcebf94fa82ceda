-- ===== src/Domain/Packet.antt =====
-- domain/packet.go: the checks on a frame's envelope, and what is read off its routing path.
pub mod Validity
use maritime_simulation.Base.{
  ℕ, ◌+◌, Bool, ◌||◌, List, [], ◌∷◌, ◌++◌, Option, none, some, ltb, ◌==◌, if◌then◌else◌, length,
}
use maritime_simulation.Base.Int.{ltb_ℤ, pos}
use maritime_simulation.Base.Text.{Text, codes}
use maritime_simulation.Domain.Errors.{Result, ok, err, validation}
use maritime_simulation.Domain.Entities.{TransmitPacket}

abbrev pub max_id_length : ℕ
max_id_length = 100

-- MaxHops of domain/mesh.go
abbrev pub max_hops : ℕ
max_hops = 5

abbrev pub is_empty : Text → Bool
is_empty t = length t == 0

-- `id == "" || len(id) > maxIDLength`
abbrev pub bad_id : Text → Bool
bad_id t = is_empty t || ltb max_id_length (length t)

-- The loop at the end of `Validate`.
unfoldable pub validate_path : List Text → Result (Unit {0})
validate_path [] = ok tt
validate_path (hop ∷ rest) = let r = validate_path rest in if bad_id hop then err validation else r

-- TransmitPacket.Validate
unfoldable pub validate : TransmitPacket → Result (Unit {0})
validate p =
    if bad_id p.packet_id
    then err validation
    else if bad_id p.origin_node
    then err validation
    else if bad_id p.target_parent
    then err validation
    else if ltb_ℤ p.hop_count (pos 1)
    then err validation
    else if length p.routing_path == 0
    then err validation
    else if ltb (max_hops + 1) (length p.routing_path)
    then err validation
    else if is_empty p.binary_payload_b64
    then err validation
    else validate_path p.routing_path

-- The last entry of a list; an empty one is out of range, which panics in Go.
unfoldable pub last : List Text → Option Text
last [] = none
last (x ∷ []) = some x
last (x ∷ y ∷ rest) = last (y ∷ rest)

-- TransmitPacket.Transmitter
unfoldable pub transmitter : TransmitPacket → Option Text
transmitter p = last p.routing_path

-- strings.Join
unfoldable pub join : List Text → Text → Text
join [] sep = []
join (x ∷ []) sep = x
join (x ∷ y ∷ rest) sep = x ++ (sep ++ join (y ∷ rest) sep)

-- TransmitPacket.PathString
unfoldable pub path_string : TransmitPacket → Text → Text
path_string p edge_code = join (p.routing_path ++ (edge_code ∷ [])) (codes "->")
