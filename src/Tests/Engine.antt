-- ===== src/Tests/Engine.antt =====
-- A transmission to the harbour, and a history of connects, frames and disconnects.
use maritime_simulation.Base.{ℕ, ◌≡◌, refl, true, List, [], ◌∷◌, some}
use maritime_simulation.Base.Text.{codes}
use maritime_simulation.Floats.{milli_float}
use maritime_simulation.Domain.Errors.{ok}
use maritime_simulation.Domain.Packet.{validate, transmitter}
use maritime_simulation.Service.Engine.Transmit.{handle_transmit}
use maritime_simulation.Service.Engine.Ledger.{transmissions, outcomes, Settles}
use maritime_simulation.Service.Engine.Accounting.{handle_transmit-Settles}
use maritime_simulation.Service.Engine.Admission.{OnlyIf}
use maritime_simulation.Service.Engine.Guards.{Decoded, handle_transmit-OnlyIf}
use maritime_simulation.Ws.Gateway.{Input, frame, joined, left, handle_all}
use maritime_simulation.Ws.Books.{handle_all-balance}
use maritime_simulation.Tests.Sample.{sid, ports, start, packer, reader, job, frame_to}

abbrev history : List Input
history = joined sid (codes "A") ∷ frame job ∷ frame job ∷ left sid (codes "A") ∷ []

handle_all-balance_example :
    transmissions sid (handle_all (ports true) packer reader history start).trace
    ≡ outcomes sid (handle_all (ports true) packer reader history start).trace
handle_all-balance_example = handle_all-balance (ports true) packer reader sid history start refl

handle_transmit-Settles_example :
    (n : ℕ) × Settles sid sid n n start.trace
      (handle_transmit (ports true) packer sid (codes "A") (frame_to (codes "E1")) start).1.trace
handle_transmit-Settles_example =
    handle_transmit-Settles (ports true) packer sid sid (codes "A") (frame_to (codes "E1")) start

handle_transmit-OnlyIf_example :
    OnlyIf
      ((validate (frame_to (codes "E1")) ≡ ok tt)
        × (transmitter (frame_to (codes "E1")) ≡ some (codes "A"))
        × Decoded (ports true) packer sid (frame_to (codes "E1")) (codes "A") start)
      start
      (handle_transmit (ports true) packer sid (codes "A") (frame_to (codes "E1")) start).1
handle_transmit-OnlyIf_example =
    handle_transmit-OnlyIf (ports true) packer sid (codes "A") (frame_to (codes "E1")) start
