-- ===== src/Runtime/Link/Ports.antt =====
-- A link with a port for each of its egressors (fork_link.rs and classify_link.rs): what the pollings
-- of their ingressors share. The lists of senders and of task parks are one list of ports.
pub mod Routing
pub mod Delivering
use route_rs.Common.{
  ℕ, zero, suc, List, [], ◌∷◌, Bool, true, false, Option, none, some, Outcome, ok, panic, ◌>>=◌,
}
use route_rs.Runtime.Crossbeam.{Crossbeam}
use route_rs.Runtime.TaskPark.{Waker, Memory}
use route_rs.Runtime.Link.{Port, new_port, send, unpark, park, die}

module _ (cb : Crossbeam) (P : Type 0) where
  -- The loop of `build_link` over the egressors.
  unfoldable pub new_ports : ℕ → ℕ → List (Port cb P)
  new_ports queue_capacity zero = []
  new_ports queue_capacity (suc n) = new_port cb P queue_capacity ∷ new_ports queue_capacity n

  -- The ports where the task is parked at the first full one, or `none` where none is full.
  unfoldable pub park_at_full :
      Waker → List (Port cb P) → Memory cb → Option (List (Port cb P) × Memory cb)
  park_at_full task [] mem = none
  park_at_full task (port ∷ ports) mem = elim (cb.is_full port.channel) [
    | true ↦ let (port', mem') = park cb P port task mem in some (port' ∷ ports, mem')
    | false ↦ elim (park_at_full task ports mem) [
      | none ↦ none
      | some (ports', mem') ↦ some (port ∷ ports', mem')
    ]
  ]

  -- `try_send(None)` on every channel
  unfoldable pub send_end : List (Port cb P) → Outcome (List (Port cb P))
  send_end [] = ok []
  send_end (port ∷ ports) = do
    port' ← send cb P port none
    ports' ← send_end ports
    ok (port' ∷ ports')

  unfoldable pub die_all : List (Port cb P) → Memory cb → List (Port cb P) × Memory cb
  die_all [] mem = ([], mem)
  die_all (port ∷ ports) mem =
      let (port', mem') = die cb P port mem in
      let (ports', mem'') = die_all ports mem' in (port' ∷ ports', mem'')

  -- `try_send(Some(packet))` and then `unpark_and_wake` on one port
  abbrev pub deliver : P → Port cb P → Memory cb → Outcome (Port cb P × Memory cb)
  deliver packet port mem = do port' ← send cb P port (some packet); ok (unpark cb P port' mem)

  -- The loop over all ports, with a clone of the packet for each.
  unfoldable pub deliver_all :
      P → List (Port cb P) → Memory cb → Outcome (List (Port cb P) × Memory cb)
  deliver_all packet [] mem = ok ([], mem)
  deliver_all packet (port ∷ ports) mem = do
    (port', mem') ← deliver packet port mem
    (ports', mem'') ← deliver_all packet ports mem'
    ok (port' ∷ ports', mem'')

  -- The port of an index, and a panic where the index is out of range.
  unfoldable pub deliver_at :
      ℕ → P → List (Port cb P) → Memory cb → Outcome (List (Port cb P) × Memory cb)
  deliver_at i packet [] mem = panic
  deliver_at zero packet (port ∷ ports) mem = do
    (port', mem') ← deliver packet port mem
    ok (port' ∷ ports, mem')
  deliver_at (suc i) packet (port ∷ ports) mem = do
    (ports', mem') ← deliver_at i packet ports mem
    ok (port ∷ ports', mem')
